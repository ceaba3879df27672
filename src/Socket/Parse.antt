-- ===== src/Socket/Parse.antt =====
-- `__iccom_sk_parse_lback_string`: three numbers from a text. `kstrtol` of base 10 belongs to the
-- kernel: it takes the bytes from `start` on, and gives the pattern of a `long`, if they are one.
pub mod RoundTrip
pub mod Zeros
pub mod Verified
use iccom_utils.Base.{
  ℕ, ◌+◌, ◌%◌, ◌^◌, List, [], ◌∷◌, ◌++◌, Bool, true, false, ◌||◌, Option, none, some,
}
use iccom_utils.Base.{◌==◌, if◌then◌else◌}
use iccom_utils.Kernel.{Status, ok, err}
use iccom_utils.Socket.{Rule, lback_rule_verify}

-- `c == ' ' || c == '\n' || c == '\t'`
abbrev pub is_space : ℕ → Bool
is_space c = c == b' ' || c == b'\n' || c == b'\t'

-- The `switch` over the number of the field, with `(int)target`.
pub set_field : ℕ → ℕ → Rule → Option Rule
set_field number target out =
    if number == 1
    then some (record out { from = target % 2 ^ 32 })
    else if number == 2
    then some (record out { to = target % 2 ^ 32 })
    else if number == 3
    then some (record out { shift = target % 2 ^ 32 })
    else none

-- What the result of `kstrtol` leads to.
store_field : ℕ → Rule → Option ℕ → Option Rule
unfolding set_field
store_field number out none = none
store_field number out (some target) = set_field number target out

-- `return -EINVAL`, or on with the loop.
abbrev pub go_on : Option Rule → (Rule → Option Rule) → Option Rule
go_on none rest = none
go_on (some out) rest = rest out

-- The loop over the characters that are left. `none` for the token is a negative `number`: the
-- start of field `number` is looked for; else the token is what `start` points to.
pub parse_fields : (List ℕ → Option ℕ) → ℕ → Option (List ℕ) → Rule → List ℕ → Option Rule
unfolding store_field
parse_fields kstrtol number token out [] = some out
parse_fields kstrtol number none out (c ∷ cs) =
    let looking = parse_fields kstrtol number none out cs in
    let started = parse_fields kstrtol number (some (c ∷ [])) out cs in
    if is_space c then looking else started
parse_fields kstrtol number (some token) out (c ∷ cs) =
    let reading = parse_fields kstrtol number (some (token ++ c ∷ [])) out cs in
    let next = λ (out' : Rule). parse_fields kstrtol (number + 1) none out' cs in
    if is_space c then go_on (store_field number out (kstrtol token)) next else reading

-- The check of the result.
pub verified_rule : Rule → Option Rule
verified_rule rule = elim (lback_rule_verify rule) [ ok ↦ some rule | err e ↦ none ]

-- `buf` with its first `len` characters, both pointers valid; `stale` is what `out` holds before,
-- and `none` is -EINVAL.
pub parse_lback_string : (List ℕ → Option ℕ) → List ℕ → Rule → Option Rule
unfolding verified_rule
parse_lback_string kstrtol buf stale = go_on (parse_fields kstrtol 1 none stale buf) verified_rule
