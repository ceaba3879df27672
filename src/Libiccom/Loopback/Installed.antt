-- ===== src/Libiccom/Loopback/Installed.antt =====
-- The loopback from the library to the driver: the line that the library prints is what the
-- driver's control file takes.
use iccom_utils.Base.{
  ℕ, ◌-◌, ◌^◌, ◌≤◌, ◌<◌, ◌≡◌, ◌≢◌, refl, arith, List, [], ◌∷◌, true, Option, some, length,
}
use iccom_utils.Kernel.{ok, err, Errno}
use iccom_utils.Socket.{Rule, SocketDevice, outside, lback_rule_verify, match_channel2lbackrule}
use iccom_utils.Socket.Loopback.{IsRule, IsMild, verified_bounds, lback_rule_verify-negative}
use iccom_utils.Socket.Parse.RoundTrip.{Decimal, render_line}
use iccom_utils.Socket.Control.{bytes, lback_rule_write, write_buffer_size}
use iccom_utils.Socket.Control.Line.{
  no_loop, lback_rule_write-render_line, lback_rule_write-zeros, match_no_loop,
}
use iccom_utils.Libiccom.{done, max_channel, area_verify}
use iccom_utils.Libiccom.Loopback.{loopback_enable, loopback_disable, disable_opened, off_line}

enable_passes :
    (t : Decimal) (rule : Rule) (n : ℕ)
    → IsRule rule
    → IsMild rule.shift
    → lback_rule_verify rule ≡ ok
    → rule.shift ≢ 0
    → loopback_enable (render_line t) rule (done n) true ≡ (done 0, some (render_line t rule))
unfolding loopback_enable area_verify
enable_passes t rule n fits mild e active =
    let b = verified_bounds rule fits mild e active in ground (arith, b)

-- A rule whose fields are ints, that the driver's verification accepts, whose shift is not 0 and
-- does not overflow an int when a channel is added, printed as three numbers on a line of at most
-- 64 bytes that kstrtol reads back. Then the library's function to enable the loopback, for which
-- the control file opens and the printing succeeds, returns 0 and prints the line, and the driver,
-- for which all allocations and copies succeed, takes the whole line and installs exactly this
-- rule.
pub loopback_enable_lem :
    (t : Decimal) (rule stale : Rule) (d : SocketDevice) (n : ℕ)
    → IsRule rule
    → IsMild rule.shift
    → lback_rule_verify rule ≡ ok
    → rule.shift ≢ 0
    → length (render_line t rule) ≤ write_buffer_size
    → (line : List ℕ) × (loopback_enable (render_line t) rule (done n) true ≡ (done 0, some line))
      × (lback_rule_write t.kstrtol d line (length line) 0 true 0 stale true
          ≡ (bytes (length line), record d { lback_map_rule = some rule }))
loopback_enable_lem t rule stale d n fits mild e active short = (
  render_line t rule,
  enable_passes t rule n fits mild e active,
  lback_rule_write-render_line t rule stale d fits e short,
)

-- The function to disable the loopback returns 0 and prints a line that the driver takes, for any
-- kstrtol that reads 0. Then no channel is an end of a loop.
pub loopback_disable_lem :
    (kstrtol : List ℕ → Option ℕ) (stale : Rule) (d : SocketDevice) (n n' channel : ℕ)
    → kstrtol (b'0' ∷ []) ≡ some 0
    → (line : List ℕ) × (d' : SocketDevice) × (loopback_disable (done n) (done n')
        ≡ (done 0, some line))
      × (lback_rule_write kstrtol d line (length line) 0 true 0 stale true
          ≡ (bytes (length line), d'))
      × (match_channel2lbackrule d'.lback_map_rule channel ≡ outside)
unfolding loopback_disable disable_opened
loopback_disable_lem kstrtol stale d n n' channel zero_read = (
  off_line,
  record d { lback_map_rule = some no_loop },
  refl,
  lback_rule_write-zeros kstrtol stale d zero_read,
  match_no_loop channel,
)

-- A range of channels up to 0x7FFF that is shifted to the left, its first channel past 0 but its
-- last one not. The library, for which the control file opens and the printing succeeds, prints
-- the line and returns 0, and the driver's verification refuses the rule.
pub loopback_enable-negative :
    (t : Decimal) (rule : Rule) (k n : ℕ)
    → rule.from < k
    → k ≤ rule.to
    → rule.to ≤ max_channel
    → rule.shift ≡ 2 ^ 32 - k
    → (loopback_enable (render_line t) rule (done n) true ≡ (done 0, some (render_line t rule)))
      × (lback_rule_verify rule ≡ err Errno.einval)
unfolding loopback_enable area_verify
loopback_enable-negative t rule k n past within low e =
    (ground arith, lback_rule_verify-negative rule k past within (omega arith) e)
