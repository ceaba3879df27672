-- ===== src/Symspi/Xfer/Overlap.antt =====
-- The check for an overlap of two regions.
use iccom_utils.Base.{ℕ, ◌+◌, ◌≤◌, ◌<◌, ◌≡◌, ◌↔◌, arith, true, false, Bool-cases, inl, inr}
use Prim.Native.Nat.{max}
use iccom_utils.Symspi.Xfer.{regions_overlap}

-- An address that lies in both regions.
abbrev pub Shares : ℕ → ℕ → ℕ → ℕ → Type 0
Shares r_1 size_1 r_2 size_2 =
    (a : ℕ) × (r_1 ≤ a) × (a < r_1 + size_1) × (r_2 ≤ a) × (a < r_2 + size_2)

shared :
    (r_1 size_1 r_2 size_2 : ℕ)
    → 0 < size_1
    → 0 < size_2
    → regions_overlap r_1 size_1 r_2 size_2 ≡ true
    → Shares r_1 size_1 r_2 size_2
unfolding regions_overlap
shared r_1 size_1 r_2 size_2 pos pos' e =
    (max r_1 r_2, ground arith, ground arith, ground arith, ground arith)

overlapping :
    (r_1 size_1 r_2 size_2 : ℕ)
    → Shares r_1 size_1 r_2 size_2
    → regions_overlap r_1 size_1 r_2 size_2 ≡ true
unfolding regions_overlap
overlapping r_1 size_1 r_2 size_2 (a, h, h', k, k') = ground arith

-- For two regions of at least one byte, regions_overlap holds exactly if some address lies in
-- both.
pub regions_overlap_iff :
    (r_1 size_1 r_2 size_2 : ℕ)
    → 0 < size_1
    → 0 < size_2
    → (regions_overlap r_1 size_1 r_2 size_2 ≡ true) ↔ Shares r_1 size_1 r_2 size_2
regions_overlap_iff r_1 size_1 r_2 size_2 pos pos' =
    (shared r_1 size_1 r_2 size_2 pos pos', overlapping r_1 size_1 r_2 size_2)

-- Regions that share no address.
pub regions_overlap_none :
    (r_1 size_1 r_2 size_2 : ℕ)
    → 0 < size_1
    → 0 < size_2
    → ¬ Shares r_1 size_1 r_2 size_2
    → regions_overlap r_1 size_1 r_2 size_2 ≡ false
regions_overlap_none r_1 size_1 r_2 size_2 pos pos' apart =
    elim (Bool-cases (regions_overlap r_1 size_1 r_2 size_2)) [
      | inl e ↦ absurd (apart (shared r_1 size_1 r_2 size_2 pos pos' e))
      | inr e ↦ e
    ]
