-- ===== src/Package/Fresh.antt =====
-- A package over fresh memory: empty, with whatever the memory held as its free space and CRC.
use iccom_utils.Base.{ℕ, ◌%◌, ◌≡◌, refl, arith, ◌⊎◌, inl, inr}
use iccom_utils.Base.{List, [], ◌∷◌, true, some, none, length, take, drop}
use iccom_utils.Base.{length-take, length-drop, take-append-drop, overlay-nil}
use iccom_utils.Kernel.{Memory, refused, granted, kmalloc, fit, length-fit}
use iccom_utils.Package.{Package, package_init, set_payload_size, set_id, data_xfer_size}
use iccom_utils.Package.Layout.{Fits, pkg}

abbrev pub fresh_package : List ℕ → Package
fresh_package fresh = record { bytes = fresh; size = data_xfer_size; owns_data = true }

-- The free space and the CRC field that fresh memory leaves.
abbrev pub fresh_free : List ℕ → List ℕ
fresh_free fresh = take 249 (drop 3 fresh)

abbrev pub fresh_crc : List ℕ → List ℕ
fresh_crc fresh = drop 249 (drop 3 fresh)

pub Fits-fresh :
    (fresh : List ℕ)
    → length fresh ≡ 256
    → Fits data_xfer_size [] (fresh_free fresh) (fresh_crc fresh)
Fits-fresh fresh len = record {
  sizes = omega (arith, length-take 249 (drop 3 fresh), length-drop 3 fresh);
  crc = omega (arith, length-drop 249 (drop 3 fresh), length-drop 3 fresh);
  small = omega arith;
}

-- A fresh package with its ID set is an empty package.
pub set_id-fresh :
    (fresh : List ℕ) (j : ℕ)
    → length fresh ≡ 256
    → set_id (set_payload_size (fresh_package fresh) 0) j
      ≡ pkg data_xfer_size true (j % 256) [] (fresh_free fresh) (fresh_crc fresh)
unfolding set_id set_payload_size
set_id-fresh [] j len = absurd (omega arith)
set_id-fresh (a ∷ []) j len = absurd (omega arith)
set_id-fresh (a ∷ b ∷ []) j len = absurd (omega arith)
set_id-fresh (a ∷ b ∷ c ∷ rest) j len = rw (take-append-drop 249 rest, overlay-nil rest) refl

-- Either there is no memory, or the package is over fresh memory of its size.
pub package_init-cases :
    (m : Memory)
    → ((package_init data_xfer_size m).0 ≡ none)
      ⊎ ((fresh : List ℕ) × (length fresh ≡ 256)
          × ((package_init data_xfer_size m).0 ≡ some (set_payload_size (fresh_package fresh) 0)))
unfolding package_init kmalloc
package_init-cases [] = inr (fit 256 [], length-fit 256 [], refl)
package_init-cases (refused ∷ m) = inl refl
package_init-cases (granted junk ∷ m) = inr (fit 256 junk, length-fit 256 junk, refl)

pub package_init-nil :
    package_init data_xfer_size [] ≡ (some (set_payload_size (fresh_package (fit 256 [])) 0), [])
unfolding package_init kmalloc
package_init-nil = refl
