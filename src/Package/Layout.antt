-- ===== src/Package/Layout.antt =====
-- The layout of a package's memory, and what the raw accessors of driver/iccom.c do to it:
-- the payload length, the ID, the payload, the free space and the CRC.
use iccom_utils.Base.{ℕ, suc, ◌+◌, ◌-◌, ◌%◌, ◌^◌, ◌≤◌, ◌≡◌, ◌≢◌, refl, sym, ap}
use iccom_utils.Base.{List, [], ◌∷◌, ◌++◌, Bool, true, none, some, arith}
use iccom_utils.Base.{length, take, drop, replicate, write_at, length-append, length-replicate}
use iccom_utils.Base.{write_at-append, take-append_length, drop-append_length, overlay-nil}
use iccom_utils.Base.{append_assoc, append-nil, suc-==-zero}
use iccom_utils.Kernel.{be16, le32}
use iccom_utils.Crc.{compute_crc32}
use iccom_utils.Package.{Package, payload_room_size, declared_size, payload_size}
use iccom_utils.Package.{payload_free_space, free_space_start, set_payload_size, set_id, get_id}
use iccom_utils.Package.{set_src, get_src, compute_src, word32, fill_unused_payload, memset_at}

-- A package with ID `id`, payload `c`, free space `f` and CRC field `k`.
abbrev pub pkg : ℕ → Bool → ℕ → List ℕ → List ℕ → List ℕ → Package
pkg size owns id c f k = record {
  bytes = be16 (length c) ++ id ∷ (c ++ (f ++ k));
  size = size;
  owns_data = owns;
}

-- The parts make up the size, and the length field can hold any payload length.
pub record Fits (size : ℕ) (c f k : List ℕ) : Type 0 where
  pub sizes : length c + length f + 7 ≡ size
  pub crc : length k ≡ 4
  pub small : size ≤ 2 ^ 16

module _ (owns : Bool) (id : ℕ) {size : ℕ} {c f k : List ℕ} (fits : Fits size c f k) where
  pub payload_room_size-pkg : payload_room_size (pkg size owns id c f k) ≡ length c + length f
  unfolding payload_room_size
  payload_room_size-pkg = omega arith

  pub declared_size-pkg : declared_size (pkg size owns id c f k) ≡ length c
  unfolding declared_size
  declared_size-pkg = omega arith

  pub payload_size-pkg : payload_size (pkg size owns id c f k) ≡ (length c, true)
  unfolding payload_size
  payload_size-pkg = ground (arith, payload_room_size-pkg, declared_size-pkg)

  pub payload_free_space-pkg : payload_free_space (pkg size owns id c f k) ≡ (length f, true)
  unfolding payload_free_space
  payload_free_space-pkg = ground (arith, payload_room_size-pkg, payload_size-pkg)

  pub free_space_start-pkg :
      length f ≢ 0 → free_space_start (pkg size owns id c f k) ≡ (some (length c + 3), true)
  unfolding free_space_start
  free_space_start-pkg h = ground (arith, payload_free_space-pkg)

  pub free_space_start-pkg_full :
      length f ≡ 0 → free_space_start (pkg size owns id c f k) ≡ (none, true)
  unfolding free_space_start
  free_space_start-pkg_full h = ground (arith, payload_free_space-pkg)

  pub set_id-pkg : (j : ℕ) → set_id (pkg size owns id c f k) j ≡ pkg size owns (j % 256) c f k
  unfolding set_id
  set_id-pkg j =
      ap {B = Package}
        (λ t. record { bytes = be16 (length c) ++ (j % 256) ∷ t; size = size; owns_data = owns })
        (overlay-nil (c ++ (f ++ k)))

  pub get_id-pkg : get_id (pkg size owns id c f k) ≡ id
  unfolding get_id
  get_id-pkg = refl

  -- The bytes that the CRC covers.
  pub take-pkg : take (size - 4) (pkg size owns id c f k).bytes ≡ be16 (length c) ++ id ∷ (c ++ f)
  take-pkg = rw (← append_assoc c f k) (
      take-append_length (be16 (length c) ++ id ∷ (c ++ f)) k (size - 4)
        (omega (arith, length-append c f)))

  pub drop-pkg : drop (size - 4) (pkg size owns id c f k).bytes ≡ k
  drop-pkg = rw (← append_assoc c f k) (
      drop-append_length (be16 (length c) ++ id ∷ (c ++ f)) k (size - 4)
        (omega (arith, length-append c f)))

  pub compute_src-pkg :
      compute_src (pkg size owns id c f k) ≡ compute_crc32 (be16 (length c) ++ id ∷ (c ++ f))
  unfolding compute_src
  compute_src-pkg = ap compute_crc32 take-pkg

  pub get_src-pkg : get_src (pkg size owns id c f k) ≡ word32 k
  unfolding get_src
  get_src-pkg = ap word32 drop-pkg

  pub set_src-pkg : (v : ℕ) → set_src (pkg size owns id c f k) v ≡ pkg size owns id c f (le32 v)
  unfolding set_src
  set_src-pkg v =
      ap {B = Package} (λ t. record { bytes = t; size = size; owns_data = owns }) written
    where
      written :
          write_at (pkg size owns id c f k).bytes (size - 4) (le32 v)
          ≡ be16 (length c) ++ id ∷ (c ++ (f ++ le32 v))
      written =
          rw
            (
              ← append_assoc c f k,
              ← append_assoc c f (le32 v),
              ← append-nil k,
              ← append-nil (le32 v),
            )
            (write_at-append (be16 (length c) ++ id ∷ (c ++ f)) k [] (le32 v) (size - 4)
              (omega (arith, length-append c f)) (omega arith))

  -- The payload as the receiver reads it.
  pub payload-pkg : take (length c) (drop 3 (pkg size owns id c f k).bytes) ≡ c
  payload-pkg = take-append_length c (f ++ k) (length c) refl

  -- A write at the start of the free space.
  pub write_at-pkg :
      (ys bs cs : List ℕ)
      → f ≡ bs ++ cs
      → length ys ≡ length bs
      → write_at (pkg size owns id c f k).bytes (length c + 3) ys
        ≡ be16 (length c) ++ id ∷ (c ++ (ys ++ (cs ++ k)))
  write_at-pkg ys bs cs e h =
      rw (e, append_assoc bs cs k)
        (write_at-append (be16 (length c) ++ id ∷ c) bs (cs ++ k) ys (length c + 3) (omega arith) h)

-- The free space is filled, and nothing else changes.
pub fill_unused_payload-pkg :
    (owns : Bool) (id : ℕ) {size : ℕ} {c : List ℕ} (f : List ℕ) {k : List ℕ}
    → Fits size c f k
    → (s : ℕ)
    → fill_unused_payload (pkg size owns id c f k) s
      ≡ (length f, pkg size owns id c (replicate (length f) s) k)
unfolding fill_unused_payload memset_at
fill_unused_payload-pkg owns id [] fits s = rw (payload_free_space-pkg owns id fits)
fill_unused_payload-pkg owns id {size} {c} (x ∷ f) {k} fits s =
    rw
      (
        payload_free_space-pkg owns id fits,
        free_space_start-pkg owns id fits (omega arith),
        suc-==-zero (length f),
      )
      (ap {B = ℕ × Package}
        (λ t. (suc (length f), record { bytes = t; size = size; owns_data = owns })) filled)
  where
    filled :
        write_at (pkg size owns id c (x ∷ f) k).bytes (length c + 3) (replicate (suc (length f)) s)
        ≡ (pkg size owns id c (replicate (suc (length f)) s) k).bytes
    filled =
        write_at-pkg owns id fits (replicate (suc (length f)) s) (x ∷ f) []
          (sym (append-nil (x ∷ f))) (length-replicate (suc (length f)) s)

-- The payload size set over written memory: what follows the old payload becomes part of it.
pub set_payload_size-pkg :
    (owns : Bool) (id size : ℕ) (c k e rest : List ℕ) (m : ℕ)
    → m ≡ length (c ++ e)
    → set_payload_size (pkg size owns id c (e ++ rest) k) m ≡ pkg size owns id (c ++ e) rest k
unfolding set_payload_size
set_payload_size-pkg owns id size c k e rest m len =
    rw (len, append_assoc c e (rest ++ k), append_assoc e rest k) refl
