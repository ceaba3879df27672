-- ===== src/Package/Identity.antt =====
-- The ID of a package of the driver's size: only setting the ID changes it, whatever else the
-- memory holds.
use iccom_utils.Base.{ℕ, ◌-◌, ◌%◌, ◌≤◌, ◌≡◌, refl, ◌∙◌, arith, ◌⊎◌, List, [], ◌∷◌}
use iccom_utils.Base.{
  Option, none, some, length, get_or, replicate, write_at, get_or-write_at, length-write_at,
}
use iccom_utils.Base.{Bool-cases, inl, inr, ◌==◌}
use iccom_utils.Kernel.{Memory, be16, le32}
use iccom_utils.Package.Fresh.{package_init-cases, fresh_package}
use iccom_utils.Package.{
  Package, data_xfer_size, set_payload_size, set_id, get_id, set_src, fill_unused_payload,
  package_finalize, package_make_empty, compute_src, empty_payload_value, package_init,
  payload_free_space, free_space_start, memset_at, payload_room_size,
}

-- The driver's size, and memory that reaches past the ID.
abbrev pub IsRaw : Package → Type 0
IsRaw p = (p.size ≡ data_xfer_size) × (3 ≤ length p.bytes)

-- The same ID, and raw again.
abbrev pub Keeps : Package → Package → Type 0
Keeps p p' = (get_id p' ≡ get_id p) × IsRaw p'

get_or-length : (xs : List ℕ) (n : ℕ) → get_or (write_at xs 0 (be16 n)) 2 0 ≡ get_or xs 2 0
get_or-length [] n = refl
get_or-length (a ∷ []) n = refl
get_or-length (a ∷ b ∷ []) n = refl
get_or-length (a ∷ b ∷ c ∷ xs) n = refl

pub set_payload_size-Keeps : (p : Package) (n : ℕ) → IsRaw p → Keeps p (set_payload_size p n)
unfolding set_payload_size get_id
set_payload_size-Keeps p n (size, long) =
    (get_or-length p.bytes n, (size, omega (arith, length-write_at p.bytes 0 (be16 n))))

-- A write behind the ID.
pub write_at-Keeps :
    (p : Package) (k : ℕ) (ys : List ℕ)
    → 3 ≤ k
    → IsRaw p
    → Keeps p (record p { bytes = write_at p.bytes k ys })
unfolding get_id
write_at-Keeps p k ys far (size, long) = (
  get_or-write_at p.bytes ys k 2 0 (omega arith),
  (size, omega (arith, length-write_at p.bytes k ys)),
)

pub set_src-Keeps : (p : Package) (src : ℕ) → IsRaw p → Keeps p (set_src p src)
unfolding set_src
set_src-Keeps p src raw = write_at-Keeps p (p.size - 4) (le32 src) (omega arith) raw

free_small : (p : Package) → IsRaw p → (payload_free_space p).0 ≤ 249
unfolding payload_free_space payload_room_size
free_small p (size, long) = omega arith

-- Where the free space begins.
pub free_space_start-far :
    (p : Package)
    → IsRaw p
    → ((free_space_start p).0 ≡ none) ⊎ ((k : ℕ) × ((free_space_start p).0 ≡ some k) × (3 ≤ k))
unfolding free_space_start
free_space_start-far p raw = elim (Bool-cases ((payload_free_space p).0 == 0)) [
  | inl full ↦ inl (rw full refl)
  | inr room ↦
      inr (
        p.size - 4 - (payload_free_space p).0,
        rw room refl,
        omega (arith, raw.0, free_small p raw),
      )
]

memset-Keeps :
    (p : Package) (start : Option ℕ) (symbol n : ℕ)
    → (start ≡ none) ⊎ ((k : ℕ) × (start ≡ some k) × (3 ≤ k))
    → IsRaw p
    → Keeps p (record p { bytes = memset_at p.bytes start symbol n })
unfolding memset_at
memset-Keeps p start symbol n (inl e) raw = rw e (refl, raw)
memset-Keeps p start symbol n (inr (k, e, far)) raw =
    rw e (write_at-Keeps p k (replicate n symbol) far raw)

fill-Keeps : (p : Package) (symbol : ℕ) → IsRaw p → Keeps p (fill_unused_payload p symbol).1
unfolding fill_unused_payload
fill-Keeps p symbol raw = elim (Bool-cases ((payload_free_space p).0 == 0)) [
  | inl full ↦ rw full (refl, raw)
  | inr room ↦ rw room (
      memset-Keeps p (free_space_start p).0 symbol (payload_free_space p).0
        (free_space_start-far p raw) raw)
]

pub package_finalize-Keeps : (p : Package) → IsRaw p → Keeps p (package_finalize p)
unfolding package_finalize
package_finalize-Keeps p raw =
    let filled = (fill_unused_payload p empty_payload_value).1 in
    let (same, raw') = fill-Keeps p empty_payload_value raw in
    let (same', raw'') = set_src-Keeps filled (compute_src filled) raw' in (same' ∙ same, raw'')

pub package_make_empty-Keeps : (p : Package) → IsRaw p → Keeps p (package_make_empty p)
unfolding package_make_empty
package_make_empty-Keeps p raw =
    let (same, raw') = set_payload_size-Keeps p 0 raw in
    let (same', raw'') = package_finalize-Keeps (set_payload_size p 0) raw' in (same' ∙ same, raw'')

-- Setting the ID.
get_or-id : (xs : List ℕ) (b : ℕ) → 3 ≤ length xs → get_or (write_at xs 2 (b ∷ [])) 2 0 ≡ b
get_or-id [] b h = absurd (omega arith)
get_or-id (x ∷ []) b h = absurd (omega arith)
get_or-id (x ∷ y ∷ []) b h = absurd (omega arith)
get_or-id (x ∷ y ∷ z ∷ xs) b h = refl

pub set_id-Raw :
    (p : Package) (id : ℕ) → IsRaw p → (get_id (set_id p id) ≡ id % 256) × IsRaw (set_id p id)
unfolding set_id get_id
set_id-Raw p id (size, long) = (
  get_or-id p.bytes (id % 256) long,
  (size, omega (arith, length-write_at p.bytes 2 ((id % 256) ∷ []))),
)

-- A new package.
pub package_init-Raw :
    (m : Memory)
    → ((package_init data_xfer_size m).0 ≡ none)
      ⊎ ((p : Package) × ((package_init data_xfer_size m).0 ≡ some p) × IsRaw p)
package_init-Raw m = elim (package_init-cases m) [
  | inl e ↦ inl e
  | inr (fresh, len, e) ↦
      let start = fresh_package fresh in
      inr (_, e, (set_payload_size-Keeps start 0 (refl, omega arith)).1)
]
