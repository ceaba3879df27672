-- ===== src/Storage/Commit/Transaction.antt =====
-- A package as a transaction on the storage: what commit and rollback make of the data that the
-- package has added.
use iccom_utils.Base.{ℕ, ◌+◌, ◌-◌, ◌≤◌, ◌<◌, ◌≡◌, refl, List, ◌++◌, Bool, true, false, arith}
use iccom_utils.Base.{
  take, length, ==_ne, if◌then◌else◌, take-append_length, length-take, take_all, length-append,
  ◌&&◌,
}
use iccom_utils.Storage.{Message, message_is_ready}
use iccom_utils.Storage.Update.{extend}
use iccom_utils.Storage.Commit.{rollback_message, commit_message}

-- The bytes of a message that are in use.
abbrev pub bytes_of : Message → List ℕ
bytes_of m = take m.length m.content

-- A message that no package is adding to, with memory for the bytes in use.
pub record IsSettled (m : Message) : Type 0 where
  pub committed : m.uncommitted_length ≡ 0
  pub allocated : m.length ≤ length m.content

-- For a settled, unfinished message that a package extends by one packet of at least a byte:
-- rolled back, the message has the bytes and the length that it had and is not ready; committed,
-- it has those bytes and then the new ones, and is ready exactly if the packet was the last one.
-- Either way it is settled again.
pub settle-extend :
    (m : Message) (data' : List ℕ) (final : Bool)
    → IsSettled m
    → m.finalized ≡ false
    → 0 < length data'
    → let r = rollback_message (extend data' (length data') final m) in
      let c = commit_message (extend data' (length data') final m) in
      (bytes_of r ≡ bytes_of m)
      × (r.length ≡ m.length)
      × (message_is_ready r ≡ false)
      × IsSettled r
      × (bytes_of c ≡ bytes_of m ++ data')
      × (message_is_ready c ≡ final)
      × IsSettled c
unfolding rollback_message commit_message message_is_ready extend
settle-extend m data' final settled unfinished pos =
    let old = take m.length m.content in
    let fits : length old ≡ m.length =
      omega (arith, length-take m.length m.content, settled.allocated) in
    let take_exact : (n : ℕ) → n ≡ length old → take n (old ++ data') ≡ old =
      take-append_length old data' in
    rw (==_ne (length data') 0 (omega arith), take_all data' (length data') refl)
      (
        take_exact (m.length + length data' - length data') (omega (arith, fits)),
        omega arith,
        refl,
        record { committed = refl; allocated = omega (arith, fits, length-append old data') },
        take_all (old ++ data') (m.length + length data')
            (omega (arith, fits, length-append old data')),
        ready final,
        record { committed = refl; allocated = omega (arith, fits, length-append old data') },
      )
  where
    ready : (b : Bool) → ((if b then true else m.finalized) && true) ≡ b
    ready true = refl
    ready false = rw unfinished refl
