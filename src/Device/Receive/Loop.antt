-- ===== src/Device/Receive/Loop.antt =====
-- The loop over the packets of a package: it ends, and the storage is committed or rolled back.
use iccom_utils.Base.{ℕ, zero, suc, ◌+◌, ◌-◌, ◌<◌, ◌≡◌, refl, ap, arith}
use iccom_utils.Base.{List, false, some, drop, ◌==◌, inl, inr, Bool-cases}
use mathlib.Core.Option
use iccom_utils.Kernel.{Memory}
use iccom_utils.Storage.{Storage}
use iccom_utils.Storage.Commit.Settled.{IsCommitted, commit-IsCommitted, rollback-IsCommitted}
use iccom_utils.Device.{Private}
use iccom_utils.Device.Receive.{
  Parsed, parse_loop, process_package_payload, finish, read_next_packet, bytes_read, Read,
}

-- The statement for a given fuel.
abbrev Ends : ℕ → Type 0
Ends fuel =
    (s : Storage) (start : List ℕ) (left done bytes : ℕ) (m : Memory)
    → left < fuel
    → (p : Parsed) × (parse_loop fuel s start left done bytes m ≡ some p)

-- Fuel above the number of bytes is enough.
pub parse_loop-Ends : (fuel : ℕ) → Ends fuel
unfolding parse_loop
parse_loop-Ends zero s start left done bytes m h = absurd (omega arith)
parse_loop-Ends (suc fuel) s start left done bytes m h = elim (Bool-cases (left == 0)) [
  | inl e ↦ rw e (_, refl)
  | inr e ↦ elim (Bool-cases (n == 0)) [
    | inl e' ↦ rw (e, e') (_, refl)
    | inr e' ↦
        let (p, again) =
          parse_loop-Ends fuel result.2 (drop n start) (left - n) (done + 1) result.1 result.3
            (omega (arith, h, smaller e e')) in
        (p, rw (e, e') again)
  ]
]
  where
    result : Read × ℕ × Storage × Memory
    result = read_next_packet s start left bytes m

    n : ℕ
    n = bytes_read result.0

    smaller : left == 0 ≡ false → n == 0 ≡ false → left - n < left
    smaller e e' = ground (arith, e, e')

-- The parsing of a payload of any content and size ends without running out of fuel, and what
-- follows the loop is applied to how it ended.
pub process_package_payload-ends :
    (d : Private) (start : List ℕ) (n : ℕ)
    → (p : Parsed) × (process_package_payload d start n ≡ some (finish d p))
unfolding process_package_payload
process_package_payload-ends d start n =
    let (p, e) = parse_loop-Ends (n + 1) d.rx_messages start n 0 0 d.memory (omega arith) in
    (p, ap (Option.map (finish d)) e)

-- What follows the loop leaves nothing uncommitted.
pub finish-IsCommitted : (d : Private) (p : Parsed) → IsCommitted (finish d p).1.rx_messages
unfolding finish
finish-IsCommitted d p = elim (Bool-cases p.success) [
  | inl e ↦ rw e (commit-IsCommitted p.storage)
  | inr e ↦ rw e (rollback-IsCommitted p.storage)
]

-- The parts of the device that parsing does not touch.
abbrev pub Untouched : Private → Private → Type 0
Untouched d d' =
    (d'.tx ≡ d.tx)
    × (d'.ack_val ≡ d.ack_val)
    × (d'.nack_val ≡ d.nack_val)
    × (d'.last_rx_package_id ≡ d.last_rx_package_id)

pub finish-Untouched : (d : Private) (p : Parsed) → Untouched d (finish d p).1
unfolding finish
finish-Untouched d p = elim (Bool-cases p.success) [
  | inl e ↦ rw e (refl, refl, refl, refl)
  | inr e ↦ rw e (refl, refl, refl, refl)
]
