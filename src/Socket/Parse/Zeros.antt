-- ===== src/Socket/Parse/Zeros.antt =====
-- The text that turns the loopback off: three zeros and a line break.
use iccom_utils.Base.{ℕ, ◌≡◌, refl, List, [], ◌∷◌, Option, some}
use iccom_utils.Socket.{Rule, lback_rule_verify}
use iccom_utils.Socket.Parse.{
  parse_lback_string, parse_fields, store_field, set_field, verified_rule,
}

pub parse_zeros :
    (kstrtol : List ℕ → Option ℕ) (stale : Rule)
    → kstrtol (b'0' ∷ []) ≡ some 0
    → parse_lback_string kstrtol (48 ∷ 32 ∷ 48 ∷ 32 ∷ 48 ∷ 10 ∷ []) stale
      ≡ some (record { from = 0; to = 0; shift = 0 })
unfolding parse_lback_string parse_fields store_field set_field verified_rule lback_rule_verify
parse_zeros kstrtol stale zero_read = rw zero_read refl
