-- ===== src/Device/Queue/Chain/Loop.antt =====
-- Appending a message keeps the IDs of neighbours apart, also where memory is refused midway.
use iccom_utils.Base.{ℕ, suc, zero, ◌-◌, ◌≡◌, subst, List}
use iccom_utils.Base.{Bool, true, false, Option, none, some, ◌==◌, if◌then◌else◌, drop}
use iccom_utils.Kernel.{Status, ok, err, Memory}
use iccom_utils.Device.{Tx}
use iccom_utils.Device.Queue.{
  append_loop, append_fuel, add_to_last, enqueue_new_tx_data_package, finish, resume,
  queue_append_message, have_multiple_packages,
}
use iccom_utils.Device.Queue.Chain.Ends.{queue_append_message-Ends}
use iccom_utils.Device.Queue.Chain.{
  IsChained, added-IsChained, enqueue_new-IsChained, finalized-IsChained,
}

-- Whatever is returned, if the fuel is enough.
abbrev pub Always : Option (Status × Tx × Memory) → Type 0
Always none = Unit
Always (some (status, t, m)) = IsChained t

resume-Always :
    (status : Status) (t : Tx) (m : Memory) (o : Option (Status × Tx × Memory))
    → IsChained t
    → Always o
    → Always (resume status t m o)
resume-Always ok t m o h g = g
resume-Always (err e) t m o h g = h

if-Always :
    (b : Bool) (o o' : Option (Status × Tx × Memory))
    → Always o
    → Always o'
    → Always (if b then o else o')
if-Always true o o' h g = h
if-Always false o o' h g = g

append_loop-Always :
    (fuel : ℕ) (t : Tx) (rest : List ℕ) (n channel : ℕ) (m : Memory)
    → IsChained t
    → Always (append_loop fuel t rest n channel m)
unfolding append_loop
append_loop-Always zero t rest n channel m h = tt
append_loop-Always (suc fuel) t rest n channel m h =
    let written = (add_to_last t.packages rest n channel).0 in
    let t' = record t { packages = (add_to_last t.packages rest n channel).1 } in
    let h' = added-IsChained t rest n channel h in
    let r = enqueue_new_tx_data_package t' m in
    let h'' = enqueue_new-IsChained t' m h' in
    let further = append_loop-Always fuel r.1 rest n channel r.2 h'' in
    let again = append_loop-Always fuel t' (drop written rest) (n - written) channel m h' in
    if-Always (n == 0) _ _ h
      (if-Always (written == 0) _ _ (resume-Always r.0 r.1 r.2 _ h'' further) again)

finish-Always : (o : Option (Status × Tx × Memory)) → Always o → Always (finish o)
unfolding finish
finish-Always none h = tt
finish-Always (some (ok, t, m)) h = finalized-IsChained t h
finish-Always (some (err e, t, m)) h = h

-- What is returned has this invariant.
pub queue_append_message-Always :
    (t : Tx) (content : List ℕ) (length channel : ℕ) (m : Memory)
    → IsChained t
    → Always (queue_append_message t content length channel m)
unfolding queue_append_message
queue_append_message-Always t content length channel m h =
    let r = enqueue_new_tx_data_package t m in
    let h' = enqueue_new-IsChained t m h in
    let loop = λ (t : Tx) (m : Memory) (h : IsChained t).
      finish-Always _ (append_loop-Always (append_fuel length) t content length channel m h) in
    if-Always (have_multiple_packages t) _ _ (loop t m h)
      (resume-Always r.0 r.1 r.2 _ h' (loop r.1 r.2 h'))

-- If the next ID is a positive int, all packages of the queue have the driver's size, neighbours
-- have different IDs, and the last one another ID than the next one to be given, then appending a
-- message, whatever it is and whichever allocations fail, ends within its fuel, and this holds
-- again of the queue that it leaves.
pub queue_append_message-IsChained :
    (t : Tx) (content : List ℕ) (length channel : ℕ) (m : Memory)
    → IsChained t
    → (status : Status) × (t' : Tx) × (m' : Memory) × (queue_append_message t content length channel
          m
        ≡ some (status, t', m'))
      × IsChained t'
queue_append_message-IsChained t content length channel m h =
    let ((status, t', m'), e) = queue_append_message-Ends t content length channel m in
    (status, t', m', e, subst Always e (queue_append_message-Always t content length channel m h))
