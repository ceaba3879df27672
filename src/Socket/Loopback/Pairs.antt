-- ===== src/Socket/Loopback/Pairs.antt =====
-- The pairs of channels that a rule connects.
use iccom_utils.Base.{
  ℕ, ◌+◌, ◌%◌, ◌^◌, ◌≤◌, ◌<◌, ◌≡◌, ◌≢◌, ◌⊎◌, refl, arith, some, inl, inr, Bool-cases, ◌==◌, ◌&&◌,
  ==_false, if_split,
}
use iccom_utils.Kernel.{ok}
use iccom_utils.Int32
use iccom_utils.Socket.{
  Rule, End, outside, local, remote, partner, match_channel2lbackrule, match_rule,
  lback_rule_verify,
}
use iccom_utils.Socket.Loopback.{IsRule, IsMild, verified_bounds}

-- The rule connects the channels of its range with those that are shifted.
abbrev pub Linked : Rule → ℕ → ℕ → Type 0
Linked rule a b =
    (rule.shift ≢ 0) × (rule.from ≤ a) × (a ≤ rule.to) × (b ≡ (a + rule.shift) % 2 ^ 32)

-- Of a channel, the side and the pair that it is in.
abbrev pub Sides : Rule → ℕ → End → Type 0
Sides rule channel side =
    ((side ≡ local) × Linked rule channel (partner rule local channel))
    ⊎ ((side ≡ remote) × Linked rule (partner rule remote channel) channel)
    ⊎ ((side ≡ outside) × ((a : ℕ) → ¬ Linked rule channel a) × ((a : ℕ) → ¬ Linked rule a channel))

-- The sides of a channel in terms of these pairs.
pub match_cases :
    (rule : Rule) (channel : ℕ)
    → IsRule rule
    → IsMild rule.shift
    → lback_rule_verify rule ≡ ok
    → channel < 2 ^ 15
    → Sides rule channel (match_channel2lbackrule (some rule) channel)
unfolding match_channel2lbackrule match_rule
match_cases rule channel fits mild e low = elim (Bool-cases (rule.shift == 0)) [
  | inl off ↦
      let zero_shift : rule.shift ≡ 0 = ground arith in
      rw off (inr (inr (refl, (λ a linked. linked.0 zero_shift), λ a linked. linked.0 zero_shift)))
  | inr on ↦
      let b = verified_bounds rule fits mild e (==_false rule.shift 0 on) in
      rw on (
        if_split (Sides rule channel)
          (Int32.less_equal rule.from channel && Int32.less_equal channel rule.to)
          (λ near. inl (refl, ground (arith, b)))
          (λ apart.
            if_split (Sides rule channel)
              (Int32.less_equal (Int32.add rule.from rule.shift) channel
                && Int32.less_equal channel (Int32.add rule.to rule.shift))
              (λ far. inr (inl (refl, ground (arith, b))))
              (λ gone.
                inr (inr (refl, (λ a linked. ground (arith, b)), λ a linked. ground (arith, b))))))
]
