-- ===== src/Device/Api/Chain.antt =====
-- Posting keeps the IDs of neighbours in the queue apart, whatever it returns.
use iccom_utils.Base.{ℕ, ◌==◌, List, Bool, true, false, not, Option, none, some, if◌then◌else◌}
use iccom_utils.Kernel.{Status, ok, err, Memory}
use iccom_utils.Device.{Private, Tx}
use iccom_utils.Device.Queue.{queue_append_message}
use iccom_utils.Device.Queue.Chain.{IsChained}
use iccom_utils.Device.Queue.Chain.Loop.{Always, queue_append_message-Always}
use iccom_utils.Device.Api.{
  Handle, no_device, no_private, device, Xchange, post_message, posted, channel_ok,
}

abbrev pub AlwaysChained : Option (Status × Handle) → Type 0
AlwaysChained none = Unit
AlwaysChained (some (status, no_device)) = Unit
AlwaysChained (some (status, no_private)) = Unit
AlwaysChained (some (status, device d)) = IsChained d.tx

posted-Always :
    (d : Private) (answer : Xchange) (o : Option (Status × Tx × Memory))
    → Always o
    → AlwaysChained (posted d answer o)
unfolding posted
posted-Always d answer none h = tt
posted-Always d answer (some (ok, t, m)) h = h
posted-Always d answer (some (err e, t, m)) h = h

if-Always :
    (b : Bool) (o o' : Option (Status × Handle))
    → AlwaysChained o
    → AlwaysChained o'
    → AlwaysChained (if b then o else o')
if-Always true o o' h g = h
if-Always false o o' h g = g

pub post_message-Always :
    (d : Private) (content : List ℕ) (length channel : ℕ) (answer : Xchange)
    → IsChained d.tx
    → AlwaysChained (post_message (device d) (some content) length channel answer)
unfolding post_message
post_message-Always d content length channel answer h =
    let appended = queue_append_message d.tx content length channel d.memory in
    let further =
      posted-Always d answer appended
        (queue_append_message-Always d.tx content length channel d.memory h) in
    if-Always (not (channel_ok channel)) _ _ h
      (if-Always (length == 0) _ _ h (if-Always d.closing _ _ h further))
