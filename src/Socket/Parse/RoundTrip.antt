-- ===== src/Socket/Parse/RoundTrip.antt =====
-- Three numbers and white space: the rule is read back. Without white space at the end the last one
-- is not read.
use iccom_utils.Base.{
  ℕ, ◌+◌, ◌%◌, ◌^◌, ◌<◌, ◌≡◌, refl, ap, sym, ◌∙◌, List, [], ◌∷◌, ◌++◌, true, false, Option, none,
  some, All,
}
use iccom_utils.Base.{append_assoc, append-nil}
use iccom_utils.Kernel.{Status, ok, err}
use iccom_utils.Socket.{Rule, lback_rule_verify}
use iccom_utils.Socket.Loopback.{IsRule}
use iccom_utils.Socket.Parse.{
  is_space, parse_fields, store_field, set_field, parse_lback_string, verified_rule, go_on,
}

-- Texts for the patterns of `int`s, which `kstrtol` reads: not empty, and without white space.
pub record Decimal : Type 0 where
  pub kstrtol : List ℕ → Option ℕ
  pub first : ℕ → ℕ
  pub rest : ℕ → List ℕ
  pub solid : (n : ℕ) → All (λ (c : ℕ). is_space c ≡ false) (first n ∷ rest n)
  pub target : ℕ → ℕ
  pub kstrtol-print : (n : ℕ) → n < 2 ^ 32 → kstrtol (first n ∷ rest n) ≡ some (target n)
  pub target_low : (n : ℕ) → n < 2 ^ 32 → target n % 2 ^ 32 ≡ n

abbrev pub print : Decimal → ℕ → List ℕ
print t n = t.first n ∷ t.rest n

module _ (kstrtol : List ℕ → Option ℕ) (number : ℕ) (out : Rule) where
  -- The rest of a token.
  parse_token :
      (token cs behind : List ℕ)
      → All (λ (c : ℕ). is_space c ≡ false) cs
      → parse_fields kstrtol number (some token) out (cs ++ behind)
        ≡ parse_fields kstrtol number (some (token ++ cs)) out behind
  unfolding parse_fields
  parse_token token [] behind solid =
      ap (λ t. parse_fields kstrtol number (some t) out behind) (sym (append-nil token))
  parse_token token (c ∷ cs) behind (solid, all) =
      rw solid (parse_token (token ++ c ∷ []) cs behind all)
      ∙ ap (λ t. parse_fields kstrtol number (some t) out behind) (append_assoc token (c ∷ []) cs)

  -- A token at the end of the text is not read.
  parse_open :
      (c : ℕ) (cs : List ℕ)
      → All (λ (c : ℕ). is_space c ≡ false) (c ∷ cs)
      → parse_fields kstrtol number none out (c ∷ cs) ≡ some out
  unfolding parse_fields
  parse_open c cs (solid, all) = rw solid (
      ap (λ x. parse_fields kstrtol number (some (c ∷ [])) out x) (sym (append-nil cs))
      ∙ parse_token (c ∷ []) cs [] all)

  -- A token up to white space.
  parse_word :
      (c : ℕ) (cs : List ℕ) (space : ℕ) (behind : List ℕ)
      → All (λ (c : ℕ). is_space c ≡ false) (c ∷ cs)
      → is_space space ≡ true
      → parse_fields kstrtol number none out (c ∷ (cs ++ space ∷ behind))
        ≡ go_on
            (store_field number out (kstrtol (c ∷ cs)))
            (λ (out' : Rule). parse_fields kstrtol (number + 1) none out' behind)
  unfolding parse_fields
  parse_word c cs space behind (solid, all) blank =
      rw (solid, parse_token (c ∷ []) cs (space ∷ behind) all, blank) refl

-- A number up to white space.
parse_number :
    (t : Decimal) (number : ℕ) (out out' : Rule) (n space : ℕ) (behind : List ℕ)
    → n < 2 ^ 32
    → is_space space ≡ true
    → set_field number (t.target n) out ≡ some out'
    → parse_fields t.kstrtol number none out (print t n ++ space ∷ behind)
      ≡ parse_fields t.kstrtol (number + 1) none out' behind
unfolding store_field
parse_number t number out out' n space behind small blank stored =
    let next : Rule → Option Rule = λ o. parse_fields t.kstrtol (number + 1) none o behind in
    parse_word t.kstrtol number out (t.first n) (t.rest n) space behind (t.solid n) blank
    ∙ ap (λ o. go_on (store_field number out o) next) (t.kstrtol-print n small)
    ∙ ap (λ o. go_on o next) stored

-- A rule as text, up to the last number, and with a line break behind it.
abbrev pub render : Decimal → Rule → List ℕ
render t rule = print t rule.from ++ b' ' ∷ (print t rule.to ++ b' ' ∷ print t rule.shift)

abbrev pub render_line : Decimal → Rule → List ℕ
render_line t rule =
    print t rule.from ++ b' ' ∷ (print t rule.to ++ b' ' ∷ (print t rule.shift ++ b'\n' ∷ []))

-- The first two numbers of a text.
parse_two :
    (t : Decimal) (rule stale : Rule) (behind : List ℕ)
    → IsRule rule
    → parse_fields t.kstrtol 1 none stale
        (print t rule.from ++ b' ' ∷ (print t rule.to ++ b' ' ∷ behind))
      ≡ parse_fields t.kstrtol 3 none (record rule { shift = stale.shift }) behind
unfolding set_field
parse_two t rule stale behind (from, to, shift) =
    parse_number t 1 stale (record stale { from = rule.from }) rule.from b' '
      (print t rule.to ++ b' ' ∷ behind) from refl
      (ap (λ (n : ℕ). some (record stale { from = n })) (t.target_low rule.from from))
    ∙ parse_number t 2 (record stale { from = rule.from }) (record rule { shift = stale.shift })
        rule.to b' ' behind to refl
        (ap (λ (n : ℕ). some (record stale { from = rule.from; to = n })) (t.target_low rule.to to))

-- A rule that passes the verification and whose fields are ints, written as three numbers with
-- single blanks between them and a line break at the end, parses back to itself, whatever the
-- output held before, for any texts of numbers without white space that kstrtol reads back.
pub parse-render_line :
    (t : Decimal) (rule stale : Rule)
    → IsRule rule
    → lback_rule_verify rule ≡ ok
    → parse_lback_string t.kstrtol (render_line t rule) stale ≡ some rule
unfolding parse_lback_string verified_rule set_field parse_fields
parse-render_line t rule stale fits good =
    ap (λ o. go_on o verified_rule)
      (parse_two t rule stale (print t rule.shift ++ b'\n' ∷ []) fits
        ∙ parse_number t 3 (record rule { shift = stale.shift }) rule rule.shift b'\n' [] fits.2
            refl
            (ap (λ (n : ℕ). some (record rule { shift = n })) (t.target_low rule.shift fits.2)))
    ∙ ap verified_of good
  where
    verified_of : Status → Option Rule
    verified_of status = elim status [ ok ↦ some rule | err e ↦ none ]

-- A rule written in the same way but without white space at the end does not have its last number
-- read: the parser goes on with the shift that the output held before.
pub parse-render :
    (t : Decimal) (rule stale : Rule)
    → IsRule rule
    → parse_lback_string t.kstrtol (render t rule) stale
      ≡ verified_rule (record rule { shift = stale.shift })
unfolding parse_lback_string parse_fields
parse-render t rule stale fits =
    ap (λ o. go_on o verified_rule) (parse_two t rule stale (print t rule.shift) fits ∙ unfinished)
  where
    unfinished :
        parse_fields t.kstrtol 3 none (record rule { shift = stale.shift }) (print t rule.shift)
        ≡ some (record rule { shift = stale.shift })
    unfinished =
        parse_open t.kstrtol 3 (record rule { shift = stale.shift }) (t.first rule.shift)
          (t.rest rule.shift) (t.solid rule.shift)
