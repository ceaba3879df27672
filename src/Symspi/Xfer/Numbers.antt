-- ===== src/Symspi/Xfer/Numbers.antt =====
-- The ID and the counter of a transfer stay positive `int`s.
use iccom_utils.Base.{ℕ, ◌^◌, ◌≤◌, ◌<◌, ◌≢◌, arith}
use iccom_utils.Symspi.{SymspiDev}
use iccom_utils.Symspi.Xfer.{get_next_xfer_id}

-- A positive `int`.
abbrev pub IsPositive : ℕ → Type 0
IsPositive n = (1 ≤ n) × (n < 2 ^ 31)

-- Two transfer IDs that symspi_get_next_xfer_id gives one after the other, from any 32-bit value
-- of the next ID, are different positive ints, and the next ID is a 32-bit value again after the
-- first.
pub get_next_xfer_id_lem :
    (d : SymspiDev)
    → d.next_xfer_id < 2 ^ 32
    → let (id, d') = get_next_xfer_id d in
      let (id', d'') = get_next_xfer_id d' in
      IsPositive id × IsPositive id' × (id ≢ id') × (d'.next_xfer_id < 2 ^ 32)
unfolding get_next_xfer_id
get_next_xfer_id_lem d h = ground arith
