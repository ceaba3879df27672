-- ===== src/Device/Queue/Ids.antt =====
-- Package IDs: never reused by the next package, also where the 8-bit field or the `int` wraps.
use iccom_utils.Base.{ℕ, ◌%◌, ◌^◌, ◌≤◌, ◌<◌, ◌≡◌, ◌≢◌, arith}
use iccom_utils.Device.{Tx}
use iccom_utils.Device.Queue.{get_next_package_id}

-- A positive `int`.
abbrev pub IsId : ℕ → Type 0
IsId n = (1 ≤ n) × (n < 2 ^ 31)

-- From a positive next ID, the next ID stays positive also where the int wraps, the ID handed out
-- is the stored one, and the 8-bit IDs of two successive packages differ.
pub get_next_package_id_lem :
    (t : Tx)
    → IsId t.next_tx_package_id
    → let (id, t') = get_next_package_id t in
      let (id', t'') = get_next_package_id t' in
      IsId t'.next_tx_package_id × (id ≡ t.next_tx_package_id) × (id % 256 ≢ id' % 256)
unfolding get_next_package_id
get_next_package_id_lem t h = ground arith
