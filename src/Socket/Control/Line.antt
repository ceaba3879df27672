-- ===== src/Socket/Control/Line.antt =====
-- The lines that a program writes to the control file.
use iccom_utils.Base.{
  ℕ, ◌≤◌, ◌≡◌, refl, arith, List, [], ◌∷◌, true, false, Option, some, length, ltb, take_all,
}
use iccom_utils.Kernel.{ok}
use iccom_utils.Socket.{
  Rule, SocketDevice, outside, lback_rule_verify, match_channel2lbackrule, match_rule,
}
use iccom_utils.Socket.Loopback.{IsRule}
use iccom_utils.Socket.Parse.Zeros.{parse_zeros}
use iccom_utils.Socket.Parse.RoundTrip.{Decimal, render_line, parse-render_line}
use iccom_utils.Socket.Control.{bytes, lback_rule_write, install_rule, write_buffer_size}

-- A line with a rule.
pub lback_rule_write-render_line :
    (t : Decimal) (rule stale : Rule) (d : SocketDevice)
    → IsRule rule
    → lback_rule_verify rule ≡ ok
    → length (render_line t rule) ≤ write_buffer_size
    → lback_rule_write t.kstrtol d
        (render_line t rule)
        (length (render_line t rule))
        0
        true
        0
        stale
        true
      ≡ (bytes (length (render_line t rule)), record d { lback_map_rule = some rule })
unfolding lback_rule_write install_rule
lback_rule_write-render_line t rule stale d fits e short =
    let small : ltb write_buffer_size (length (render_line t rule)) ≡ false = ground arith in
    rw
      (
        small,
        take_all (render_line t rule) (length (render_line t rule)) refl,
        parse-render_line t rule stale fits e,
      )
      refl

abbrev pub no_loop : Rule
no_loop = record { from = 0; to = 0; shift = 0 }

pub match_no_loop : (channel : ℕ) → match_channel2lbackrule (some no_loop) channel ≡ outside
unfolding match_channel2lbackrule match_rule
match_no_loop channel = refl

-- Three zeros.
pub lback_rule_write-zeros :
    (kstrtol : List ℕ → Option ℕ) (stale : Rule) (d : SocketDevice)
    → kstrtol (b'0' ∷ []) ≡ some 0
    → let line : List ℕ = 48 ∷ 32 ∷ 48 ∷ 32 ∷ 48 ∷ 10 ∷ [] in
      lback_rule_write kstrtol d line (length line) 0 true 0 stale true
      ≡ (bytes (length line), record d { lback_map_rule = some no_loop })
unfolding lback_rule_write install_rule
lback_rule_write-zeros kstrtol stale d zero_read = rw (parse_zeros kstrtol stale zero_read) refl
