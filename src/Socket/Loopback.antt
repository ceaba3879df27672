-- ===== src/Socket/Loopback.antt =====
-- The two ends of a loop.
pub mod Pairs
use iccom_utils.Base.{
  ℕ, ◌+◌, ◌-◌, ◌^◌, ◌≤◌, ◌<◌, ◌≡◌, ◌≢◌, ◌⊎◌, refl, arith, some, inl, inr, Bool-cases, ◌==◌,
  ==_false,
}
use iccom_utils.Kernel.{ok, err, Errno}
use iccom_utils.Socket.{
  Rule, End, outside, local, remote, partner, match_channel2lbackrule, match_rule,
  lback_rule_verify,
}

-- A rule whose fields are patterns of 32 bits.
abbrev pub IsRule : Rule → Type 0
IsRule rule = (rule.from < 2 ^ 32) × (rule.to < 2 ^ 32) × (rule.shift < 2 ^ 32)

-- A shift whose sum with a channel does not overflow an `int`.
abbrev pub IsMild : ℕ → Type 0
IsMild shift = (shift + 2 ^ 15 < 2 ^ 31) ⊎ (2 ^ 31 ≤ shift)

-- The verified ranges lie in the channels and do not overlap, to the right or to the left.
pub verified_bounds :
    (rule : Rule)
    → IsRule rule
    → IsMild rule.shift
    → lback_rule_verify rule ≡ ok
    → rule.shift ≢ 0
    → (rule.from ≤ rule.to)
      × (rule.to < 2 ^ 15)
      × (((rule.to + rule.shift < 2 ^ 16) × (rule.to < rule.from + rule.shift))
          ⊎ ((2 ^ 32 ≤ rule.from + rule.shift) × (rule.to + rule.shift < rule.from + 2 ^ 32)))
unfolding lback_rule_verify
verified_bounds rule fits mild e active = ground arith

abbrev pub opposite : End → End
opposite local = remote
opposite remote = local
opposite outside = outside

-- For a rule that passes the verification, whose fields are ints and whose shift does not overflow
-- an int when a channel is added, and for a channel number below 2^31, not cut to the 15 bits of a
-- sender: the channel that the rule gives as the other end is at the opposite end for the rule,
-- and of that one the rule gives the first channel as the other end.
pub match_channel2lbackrule_lem :
    (rule : Rule) (channel : ℕ)
    → IsRule rule
    → IsMild rule.shift
    → lback_rule_verify rule ≡ ok
    → channel < 2 ^ 31
    → let side = match_channel2lbackrule (some rule) channel in
      let other = partner rule side channel in
      (match_channel2lbackrule (some rule) other ≡ opposite side)
      × (partner rule (opposite side) other ≡ channel)
unfolding match_channel2lbackrule match_rule
match_channel2lbackrule_lem rule channel fits mild e small = elim (Bool-cases (rule.shift == 0)) [
  | inl off ↦ rw off (refl, refl)
  | inr on ↦
      let b = verified_bounds rule fits mild e (==_false rule.shift 0 on) in
      rw on (ground (arith, b))
]

-- A range of channels that is shifted to the right by more than its length.
pub lback_rule_verify-right :
    (rule : Rule)
    → rule.from ≤ rule.to
    → rule.to < 2 ^ 15
    → rule.to + rule.shift < 2 ^ 16 - 1
    → rule.to < rule.from + rule.shift
    → lback_rule_verify rule ≡ ok
unfolding lback_rule_verify
lback_rule_verify-right rule ordered low fits apart = ground arith

-- A range that is shifted to the left past the channel 0.
pub lback_rule_verify-negative :
    (rule : Rule) (k : ℕ)
    → rule.from < k
    → k ≤ rule.to
    → rule.to < 2 ^ 15
    → rule.shift ≡ 2 ^ 32 - k
    → lback_rule_verify rule ≡ err Errno.einval
unfolding lback_rule_verify
lback_rule_verify-negative rule k past within low e = ground arith
