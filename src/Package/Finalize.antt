-- ===== src/Package/Finalize.antt =====
-- Finalising a package and verifying it: what a sender prepares, its receiver accepts.
use iccom_utils.Base.{ℕ, ◌^◌, ◌<◌, ◌≡◌, refl, ap, arith}
use iccom_utils.Base.{List, [], ◌∷◌, ◌++◌, Bool, length, replicate, All, length-replicate}
use iccom_utils.Base.{some, ==_iff, zero, suc, ◌↔◌, sym, append_assoc, length-append}
use iccom_utils.Kernel.{be16, le32}
use iccom_utils.Crc.{compute_crc32, compute_crc32-lt}
use iccom_utils.Package.{Package, word32, package_finalize, package_make_empty, verify_package_data}
use iccom_utils.Package.{verify_package_crc}
use iccom_utils.Package.{empty_payload_value, set_payload_size}
use iccom_utils.Package.Layout.{Fits, pkg, payload_size-pkg, fill_unused_payload-pkg}
use iccom_utils.Package.Layout.{set_src-pkg, compute_src-pkg, get_src-pkg}
use iccom_utils.Package.Unused.{IsByte, check_unused_payload_iff}

-- The free space and the CRC of a finalised package.
abbrev pub padding : List ℕ → List ℕ
padding f = replicate (length f) empty_payload_value

abbrev pub crc_of : ℕ → List ℕ → List ℕ → List ℕ
crc_of id c f = le32 (compute_crc32 (be16 (length c) ++ id ∷ (c ++ f)))

word32-le32 : (v : ℕ) → v < 2 ^ 32 → word32 (le32 v) ≡ v
word32-le32 v h = omega arith

pub Fits-padding :
    {size : ℕ} {c f k : List ℕ} (id : ℕ)
    → Fits size c f k
    → Fits size c (padding f) (crc_of id c (padding f))
Fits-padding {f = f} id fits = record {
  sizes = omega (arith, length-replicate (length f) empty_payload_value);
  crc = refl;
  small = fits.small;
}

Fits-filled : {size : ℕ} {c f k : List ℕ} → Fits size c f k → Fits size c (padding f) k
Fits-filled {f = f} fits = record {
  sizes = omega (arith, length-replicate (length f) empty_payload_value);
  crc = fits.crc;
  small = fits.small;
}

-- Finalising fills the free space and sets the CRC, and changes neither ID nor payload.
pub package_finalize-pkg :
    (owns : Bool) (id : ℕ) {size : ℕ} {c f k : List ℕ}
    → Fits size c f k
    → package_finalize (pkg size owns id c f k)
      ≡ pkg size owns id c (padding f) (crc_of id c (padding f))
unfolding package_finalize
package_finalize-pkg owns id {f = f} fits =
    rw
      (
        fill_unused_payload-pkg owns id f fits empty_payload_value,
        compute_src-pkg owns id (Fits-filled fits),
      )
      (set_src-pkg owns id (Fits-filled fits) _)

-- A well-formed package whose free space holds bytes is verified with its payload size exactly
-- when the free space holds the filler and the CRC field the CRC of the bytes before it.
pub verify_package_data_iff :
    (owns : Bool) (id : ℕ) {size : ℕ} {c f k : List ℕ}
    → Fits size c f k
    → All IsByte f
    → (verify_package_data (pkg size owns id c f k) ≡ some (length c))
      ↔ ((f ≡ padding f) × (word32 k ≡ compute_crc32 (be16 (length c) ++ id ∷ (c ++ f))))
unfolding verify_package_data verify_package_crc
verify_package_data_iff owns id {c = c} {f = f} {k = k} fits bytes =
    rw (payload_size-pkg owns id fits, get_src-pkg owns id fits, compute_src-pkg owns id fits)
      (ground (
        arith,
        check_unused_payload_iff owns id f fits bytes empty_payload_value (omega arith),
        ==_iff (word32 k) (compute_crc32 (be16 (length c) ++ id ∷ (c ++ f))),
      ))

All-IsByte-padding : (n : ℕ) → All IsByte (replicate n empty_payload_value)
All-IsByte-padding zero = tt
All-IsByte-padding (suc n) = (omega arith, All-IsByte-padding n)

-- What a sender finalises, its receiver accepts.
pub verify-finalized :
    (owns : Bool) (id : ℕ) {size : ℕ} {c f k : List ℕ}
    → Fits size c f k
    → verify_package_data (pkg size owns id c (padding f) (crc_of id c (padding f)))
      ≡ some (length c)
verify-finalized owns id {c = c} {f = f} fits =
    (verify_package_data_iff owns id (Fits-padding id fits) (All-IsByte-padding (length f))).1 (
      ap (λ n. replicate n empty_payload_value)
          (sym (length-replicate (length f) empty_payload_value)),
      word32-le32 _ (compute_crc32-lt _),
    )

-- Finalising a well-formed package makes it pass the verification of the receiver, with its
-- payload size.
pub verify-package_finalize :
    (owns : Bool) (id : ℕ) {size : ℕ} {c f k : List ℕ}
    → Fits size c f k
    → verify_package_data (package_finalize (pkg size owns id c f k)) ≡ some (length c)
verify-package_finalize owns id fits =
    rw (package_finalize-pkg owns id fits) (verify-finalized owns id fits)

set_payload_size_zero-pkg :
    (owns : Bool) (id size : ℕ) (c f k : List ℕ)
    → set_payload_size (pkg size owns id c f k) 0 ≡ pkg size owns id [] (c ++ f) k
unfolding set_payload_size
set_payload_size_zero-pkg owns id size c f k =
    ap {B = Package} (λ t. record { bytes = be16 0 ++ id ∷ t; size = size; owns_data = owns })
      (sym (append_assoc c f k))

pub Fits-empty : {size : ℕ} {c f k : List ℕ} → Fits size c f k → Fits size [] (c ++ f) k
Fits-empty {c = c} {f = f} fits = record {
  sizes = omega (arith, length-append c f);
  crc = fits.crc;
  small = fits.small;
}

-- An emptied well-formed package keeps its ID and has no payload: all of its space holds the
-- filler, and the CRC is that of the empty package.
pub package_make_empty-pkg :
    (owns : Bool) (id : ℕ) {size : ℕ} {c f k : List ℕ}
    → Fits size c f k
    → package_make_empty (pkg size owns id c f k)
      ≡ pkg size owns id [] (padding (c ++ f)) (crc_of id [] (padding (c ++ f)))
unfolding package_make_empty
package_make_empty-pkg owns id {size} {c} {f} {k} fits =
    rw (set_payload_size_zero-pkg owns id size c f k)
      (package_finalize-pkg owns id (Fits-empty fits))
