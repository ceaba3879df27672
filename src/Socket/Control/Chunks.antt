-- ===== src/Socket/Control/Chunks.antt =====
-- Reading the control file in parts.
use iccom_utils.Base.{
  ℕ, ◌+◌, ◌-◌, ◌≡◌, refl, ap, ap₂, sym, ◌∙◌, arith, List, [], ◌∷◌, ◌++◌, true, inl, inr, min,
}
use iccom_utils.Base.{Bool-cases, leb, if◌then◌else◌, length, take, drop, zero, suc}
use iccom_utils.Socket.Control.{bytes, lback_rule_read, rule_text, read_buffer_size}

take_nil : (n : ℕ) → let none : List ℕ = [] in take n none ≡ none
take_nil zero = refl
take_nil (suc n) = refl

-- Two adjacent parts of a list.
take-drop :
    (xs : List ℕ) (k n m j s : ℕ)
    → j ≡ k + n
    → s ≡ n + m
    → take n (drop k xs) ++ take m (drop j xs) ≡ take s (drop k xs)
take-drop xs zero zero m zero s e h = ap (λ t. take t xs) (omega arith)
take-drop xs zero zero m (suc j) s e h = absurd (omega arith)
take-drop xs zero (suc n) m zero s e h = absurd (omega arith)
take-drop xs zero (suc n) m (suc j) zero e h = absurd (omega arith)
take-drop [] zero (suc n) zero (suc j) (suc s) e h = refl
take-drop [] zero (suc n) (suc m) (suc j) (suc s) e h = refl
take-drop (x ∷ xs) zero (suc n) m (suc j) (suc s) e h =
    ap (λ t. x ∷ t) (take-drop xs zero n m j s (omega arith) (omega arith))
take-drop xs (suc k) n m zero s e h = absurd (omega arith)
take-drop [] (suc k) n m (suc j) s e h =
    ap₂ (λ a b. a ++ b) (take_nil n) (take_nil m) ∙ sym (take_nil s)
take-drop (x ∷ xs) (suc k) n m (suc j) s e h = take-drop xs k n m j s (omega arith) h

-- How many bytes one read gives.
abbrev given : ℕ → ℕ → ℕ → ℕ
given len pos count = if leb pos len then min (len - pos) count else 0

given_split :
    (len pos n m : ℕ)
    → given len pos n + given len (pos + given len pos n) m ≡ given len pos (n + m)
given_split len pos n m = ground arith

abbrev shown : List ℕ → ℕ
shown text = min (length text + 1) read_buffer_size

read_lem :
    (text : List ℕ) (pos count : ℕ)
    → let g = given (shown text) pos count in
      lback_rule_read text true count pos 0 ≡ (bytes g, take g (drop pos (rule_text text)), pos + g)
unfolding lback_rule_read
read_lem text pos count =
    let g = given (shown text) pos count in
    elim (Bool-cases (leb read_buffer_size pos)) [
      | inl past ↦
          let none_left : g ≡ 0 = ground arith in
          rw (past, none_left) (ap (λ n. (bytes 0, [], n)) (omega arith))
      | inr inside ↦ let all : g - 0 ≡ g = omega arith in rw (inside, all) refl
    ]

-- Two reads of the control file one after the other, for which the buffer is granted and all bytes
-- reach the user, give the bytes and the position that one read of both sizes gives.
pub lback_rule_read-split :
    (text : List ℕ) (pos n m : ℕ)
    → let (size, first, next) = lback_rule_read text true n pos 0 in
      let (size', second, end) = lback_rule_read text true m next 0 in
      let (_, whole, end') = lback_rule_read text true (n + m) pos 0 in
      (first ++ second ≡ whole) × (end ≡ end')
unfolding lback_rule_read
lback_rule_read-split text pos n m =
    let a = given (shown text) pos n in
    let b = given (shown text) (pos + a) m in
    rw
      (
        read_lem text pos n,
        read_lem text (pos + a) m,
        read_lem text pos (n + m),
        sym (given_split (shown text) pos n m),
      )
      (take-drop (rule_text text) pos a b (pos + a) (a + b) refl refl, omega arith)
