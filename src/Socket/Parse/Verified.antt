-- ===== src/Socket/Parse/Verified.antt =====
-- What the parser accepts is verified.
use iccom_utils.Base.{ℕ, ◌≡◌, refl, ap, ◌⊎◌, inl, inr, List, Option, none, some}
use iccom_utils.Kernel.{Errno, Status, ok, err}
use iccom_utils.Socket.{Rule, lback_rule_verify}
use iccom_utils.Socket.Parse.{parse_lback_string, parse_fields, verified_rule, go_on}

-- What is parsed is verified.
verified_rule_lem :
    (rule : Rule)
    → (verified_rule rule ≡ none)
      ⊎ ((verified_rule rule ≡ some rule) × (lback_rule_verify rule ≡ ok))
unfolding verified_rule
verified_rule_lem rule = elim (Status-cases (lback_rule_verify rule)) [
  | inl good ↦ inr (ap verified_of good, good)
  | inr (e, bad) ↦ inl (ap verified_of bad)
]
  where
    verified_of : Status → Option Rule
    verified_of status = elim status [ ok ↦ some rule | err e ↦ none ]

    Status-cases : (s : Status) → (s ≡ ok) ⊎ ((e : Errno) × (s ≡ err e))
    Status-cases ok = inl refl
    Status-cases (err e) = inr (e, refl)

pub parse_lback_string_lem :
    (kstrtol : List ℕ → Option ℕ) (buf : List ℕ) (stale : Rule)
    → (parse_lback_string kstrtol buf stale ≡ none)
      ⊎ ((rule : Rule) × (parse_lback_string kstrtol buf stale ≡ some rule)
          × (lback_rule_verify rule ≡ ok))
unfolding parse_lback_string
parse_lback_string_lem kstrtol buf stale = passed (parse_fields kstrtol 1 none stale buf)
  where
    passed :
        (o : Option Rule)
        → (go_on o verified_rule ≡ none)
          ⊎ ((rule : Rule) × (go_on o verified_rule ≡ some rule) × (lback_rule_verify rule ≡ ok))
    passed none = inl refl
    passed (some rule) = elim (verified_rule_lem rule) [
      | inl e ↦ inl e
      | inr (e, good) ↦ inr (rule, e, good)
    ]
