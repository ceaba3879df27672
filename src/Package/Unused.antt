-- ===== src/Package/Unused.antt =====
-- The check of the unused payload space, by 32-bit words and then by bytes, against its meaning:
-- every unused byte is the symbol.
use iccom_utils.Base.{ℕ, zero, suc, ◌+◌, ◌*◌, ◌/◌, ◌%◌, ◌^◌, ◌<◌, ◌≡◌, ◌↔◌, refl, arith}
use iccom_utils.Base.{List, [], ◌∷◌, ◌++◌, Bool, true, length, replicate, All, drop}
use iccom_utils.Base.{drop-append_length}
use iccom_utils.Kernel.{be16}
use iccom_utils.Package.{check_bytes, check_words, check_unused_payload, area_at}
use iccom_utils.Package.Layout.{Fits, pkg, payload_free_space-pkg, free_space_start-pkg}
use iccom_utils.Package.Layout.{free_space_start-pkg_full}

abbrev pub IsByte : ℕ → Type 0
IsByte b = b < 256

-- Both ways: the bytes are checked one by one.
check_bytes_iff :
    (f rest : List ℕ) (s : ℕ)
    → (check_bytes (length f) (f ++ rest) s ≡ true) ↔ (f ≡ replicate (length f) s)
unfolding check_bytes
check_bytes_iff [] rest s = (λ h. refl, λ h. refl)
check_bytes_iff (x ∷ f) rest s = ground (arith, check_bytes_iff f rest s)

-- Four bytes are the symbol exactly when the word is.
word_iff :
    (a b c d s : ℕ)
    → a < 256
    → b < 256
    → c < 256
    → d < 256
    → s < 256
    → a + b * 2 ^ 8 + c * 2 ^ 16 + d * 2 ^ 24 ≡ s + s * 2 ^ 8 + s * 2 ^ 16 + s * 2 ^ 24
    → (a ≡ s) × (b ≡ s) × (c ≡ s) × (d ≡ s)
word_iff a b c d s ha hb hc hd hs e = omega arith

check_words_iff :
    (n t : ℕ) (f rest : List ℕ) (s : ℕ)
    → length f ≡ 4 * n + t
    → All IsByte f
    → s < 256
    → (check_words n t (f ++ rest) s ≡ true) ↔ (f ≡ replicate (length f) s)
unfolding check_words
check_words_iff zero t f rest s e bytes hs =
    let e' : t ≡ length f = omega arith in rw e' (check_bytes_iff f rest s)
check_words_iff (suc n) t [] rest s e bytes hs = absurd (omega arith)
check_words_iff (suc n) t (a ∷ []) rest s e bytes hs = absurd (omega arith)
check_words_iff (suc n) t (a ∷ b ∷ []) rest s e bytes hs = absurd (omega arith)
check_words_iff (suc n) t (a ∷ b ∷ c ∷ []) rest s e bytes hs = absurd (omega arith)
check_words_iff (suc n) t (a ∷ b ∷ c ∷ d ∷ f) rest s e (ha, (hb, (hc, (hd, bytes)))) hs =
    let ih = check_words_iff n t f rest s (omega arith) bytes hs in
    ground (arith, ih, word_iff a b c d s ha hb hc hd hs)

-- On a well-formed package whose free space holds bytes, the check by 32-bit words and then by
-- bytes passes exactly when every byte of the free space is the symbol.
pub check_unused_payload_iff :
    (owns : Bool) (id : ℕ) {size : ℕ} {c : List ℕ} (f : List ℕ) {k : List ℕ}
    → Fits size c f k
    → All IsByte f
    → (s : ℕ) → s < 256
    → (check_unused_payload (pkg size owns id c f k) s ≡ true) ↔ (f ≡ replicate (length f) s)
unfolding check_unused_payload area_at
check_unused_payload_iff owns id [] fits bytes s hs =
    rw (payload_free_space-pkg owns id fits, free_space_start-pkg_full owns id fits refl)
      (check_words_iff 0 0 [] [] s refl bytes hs)
check_unused_payload_iff owns id {size} {c} (x ∷ f) {k} fits bytes s hs =
    rw
      (
        payload_free_space-pkg owns id fits,
        free_space_start-pkg owns id fits (omega arith),
        dropped,
      )
      (check_words_iff (suc (length f) / 4) (suc (length f) % 4) (x ∷ f) k s (omega arith) bytes hs)
  where
    dropped : drop (length c + 3) (pkg size owns id c (x ∷ f) k).bytes ≡ x ∷ (f ++ k)
    dropped =
        drop-append_length (be16 (length c) ++ id ∷ c) (x ∷ (f ++ k)) (length c + 3) (omega arith)
