-- ===== src/Base/Lists.antt =====
-- Lists measured and indexed by native numbers, under the library's names, and the memory
-- writes of C over them.
use Prim.Native.Nat.{ℕ, zero, suc, ◌+◌, ◌-◌, ◌<◌, min}
use mathlib.Core.Path.{◌≡◌, refl, ap}
use mathlib.Core.List.{List, [], ◌∷◌, ◌++◌}
use mathlib.Core.Option.{Option, none, some}
use native.Mathlib.Omega.{arith}

module _ {ℓ} {A : Type ℓ} where
  abbrev pub length : List A → ℕ
  length [] = 0
  length (x ∷ xs) = suc (length xs)

  abbrev pub get_or : List A → ℕ → A → A
  get_or [] i d = d
  get_or (x ∷ xs) zero d = x
  get_or (x ∷ xs) (suc i) d = get_or xs i d

  abbrev pub get_elem? : List A → ℕ → Option A
  get_elem? [] i = none
  get_elem? (x ∷ xs) zero = some x
  get_elem? (x ∷ xs) (suc i) = get_elem? xs i

  abbrev pub take : ℕ → List A → List A
  take zero xs = []
  take (suc n) [] = []
  take (suc n) (x ∷ xs) = x ∷ take n xs

  abbrev pub drop : ℕ → List A → List A
  drop zero xs = xs
  drop (suc n) [] = []
  drop (suc n) (x ∷ xs) = drop n xs

  abbrev pub replicate : ℕ → A → List A
  replicate zero a = []
  replicate (suc n) a = a ∷ replicate n a

  -- `memcpy` to the front of an area: what would lie past its end is dropped.
  abbrev pub overlay : List A → List A → List A
  overlay [] ys = []
  overlay (x ∷ xs) [] = x ∷ xs
  overlay (x ∷ xs) (y ∷ ys) = y ∷ overlay xs ys

  -- `memcpy` to an offset of an area.
  abbrev pub write_at : List A → ℕ → List A → List A
  write_at xs zero ys = overlay xs ys
  write_at [] (suc k) ys = []
  write_at (x ∷ xs) (suc k) ys = x ∷ write_at xs k ys

  abbrev pub All {κ} : (A → Type κ) → List A → Type κ
  All P [] = Unit
  All P (x ∷ xs) = P x × All P xs

  pub length-append : (xs ys : List A) → length (xs ++ ys) ≡ length xs + length ys
  length-append [] ys = omega arith
  length-append (x ∷ xs) ys = omega (arith, length-append xs ys)

  pub length-take : (n : ℕ) (xs : List A) → length (take n xs) ≡ min n (length xs)
  length-take zero xs = omega arith
  length-take (suc n) [] = omega arith
  length-take (suc n) (x ∷ xs) = omega (arith, length-take n xs)

  pub length-drop : (n : ℕ) (xs : List A) → length (drop n xs) ≡ length xs - n
  length-drop zero xs = omega arith
  length-drop (suc n) [] = omega arith
  length-drop (suc n) (x ∷ xs) = omega (arith, length-drop n xs)

  pub length-replicate : (n : ℕ) (a : A) → length (replicate n a) ≡ n
  length-replicate zero a = refl
  length-replicate (suc n) a = ap suc (length-replicate n a)

  pub take-append-drop : (n : ℕ) (xs : List A) → take n xs ++ drop n xs ≡ xs
  take-append-drop zero xs = refl
  take-append-drop (suc n) [] = refl
  take-append-drop (suc n) (x ∷ xs) = rw (take-append-drop n xs)

  pub take-append_length : (xs ys : List A) (n : ℕ) → n ≡ length xs → take n (xs ++ ys) ≡ xs
  take-append_length [] ys zero e = refl
  take-append_length [] ys (suc n) e = absurd (omega arith)
  take-append_length (x ∷ xs) ys zero e = absurd (omega arith)
  take-append_length (x ∷ xs) ys (suc n) e =
      ap (λ t. x ∷ t) (take-append_length xs ys n (omega arith))

  pub drop-append_length : (xs ys : List A) (n : ℕ) → n ≡ length xs → drop n (xs ++ ys) ≡ ys
  drop-append_length [] ys zero e = refl
  drop-append_length [] ys (suc n) e = absurd (omega arith)
  drop-append_length (x ∷ xs) ys zero e = absurd (omega arith)
  drop-append_length (x ∷ xs) ys (suc n) e = drop-append_length xs ys n (omega arith)

  pub take_all : (xs : List A) (n : ℕ) → n ≡ length xs → take n xs ≡ xs
  take_all [] zero e = refl
  take_all [] (suc n) e = refl
  take_all (x ∷ xs) zero e = absurd (omega arith)
  take_all (x ∷ xs) (suc n) e = ap (λ t. x ∷ t) (take_all xs n (omega arith))

  pub overlay-nil : (xs : List A) → overlay xs [] ≡ xs
  overlay-nil [] = refl
  overlay-nil (x ∷ xs) = refl

  pub overlay-append :
      (ys bs cs : List A) → length ys ≡ length bs → overlay (bs ++ cs) ys ≡ ys ++ cs
  overlay-append [] [] [] e = refl
  overlay-append [] [] (c ∷ cs) e = refl
  overlay-append [] (b ∷ bs) cs e = absurd (omega arith)
  overlay-append (y ∷ ys) [] cs e = absurd (omega arith)
  overlay-append (y ∷ ys) (b ∷ bs) cs e = ap (λ t. y ∷ t) (overlay-append ys bs cs (omega arith))

  -- A write of exactly the middle part of an area.
  pub write_at-append :
      (xs bs cs ys : List A) (k : ℕ)
      → k ≡ length xs
      → length ys ≡ length bs
      → write_at (xs ++ (bs ++ cs)) k ys ≡ xs ++ (ys ++ cs)
  write_at-append [] bs cs ys zero e h = overlay-append ys bs cs h
  write_at-append [] bs cs ys (suc k) e h = absurd (omega arith)
  write_at-append (x ∷ xs) bs cs ys zero e h = absurd (omega arith)
  write_at-append (x ∷ xs) bs cs ys (suc k) e h =
      ap (λ t. x ∷ t) (write_at-append xs bs cs ys k (omega arith) h)

  overlay-write_at :
      (xs ys bs : List A) (m : ℕ)
      → m ≡ length ys
      → write_at (overlay xs ys) m bs ≡ overlay xs (ys ++ bs)
  overlay-write_at [] [] bs zero e = refl
  overlay-write_at (x ∷ xs) [] bs zero e = refl
  overlay-write_at xs [] bs (suc m) e = absurd (omega arith)
  overlay-write_at xs (a ∷ ys) bs zero e = absurd (omega arith)
  overlay-write_at [] (a ∷ ys) bs (suc m) e = refl
  overlay-write_at (x ∷ xs) (a ∷ ys) bs (suc m) e =
      ap (λ t. a ∷ t) (overlay-write_at xs ys bs m (omega arith))

  -- Two adjacent writes are one.
  pub write_at-write_at :
      (xs ys bs : List A) (k m : ℕ)
      → m ≡ k + length ys
      → write_at (write_at xs k ys) m bs ≡ write_at xs k (ys ++ bs)
  write_at-write_at xs ys bs zero m e = overlay-write_at xs ys bs m (omega arith)
  write_at-write_at xs ys bs (suc k) zero e = absurd (omega arith)
  write_at-write_at [] ys bs (suc k) (suc m) e = refl
  write_at-write_at (x ∷ xs) ys bs (suc k) (suc m) e =
      ap (λ t. x ∷ t) (write_at-write_at xs ys bs k m (omega arith))

  pub length-overlay : (xs ys : List A) → length (overlay xs ys) ≡ length xs
  length-overlay [] ys = refl
  length-overlay (x ∷ xs) [] = refl
  length-overlay (x ∷ xs) (y ∷ ys) = ap suc (length-overlay xs ys)

  pub length-write_at : (xs : List A) (k : ℕ) (ys : List A) → length (write_at xs k ys) ≡ length xs
  length-write_at xs zero ys = length-overlay xs ys
  length-write_at [] (suc k) ys = refl
  length-write_at (x ∷ xs) (suc k) ys = ap suc (length-write_at xs k ys)

  -- A write behind an index.
  pub get_or-write_at :
      (xs ys : List A) (k i : ℕ) (d : A) → i < k → get_or (write_at xs k ys) i d ≡ get_or xs i d
  get_or-write_at xs ys zero i d h = absurd (omega arith)
  get_or-write_at [] ys (suc k) i d h = refl
  get_or-write_at (x ∷ xs) ys (suc k) zero d h = refl
  get_or-write_at (x ∷ xs) ys (suc k) (suc i) d h = get_or-write_at xs ys k i d (omega arith)
