-- ===== src/Device/Api/Post.antt =====
-- `iccom_post_message` on an open device.
use iccom_utils.Base.{
  ℕ, ◌<◌, ◌≡◌, ◌≢◌, refl, arith, ap, ◌∙◌, List, [], ◌∷◌, ◌++◌, true, false, some,
}
use iccom_utils.Base.{length, All, ◌⊎◌, inl, inr, ==_ne, ◌==◌, Bool-cases}
use iccom_utils.Kernel.{ok, err, Errno, Memory}
use iccom_utils.Package.{Package}
use iccom_utils.Packet.Message.{Carries}
use iccom_utils.Device.{Tx, Private}
use iccom_utils.Device.Queue.{queue_append_message}
use iccom_utils.Device.Queue.Enqueue.{IsSealed, stream}
use iccom_utils.Device.Queue.Post.{queue_append_message_lem}
use iccom_utils.Device.Queue.{have_packages}
use iccom_utils.Device.Api.{
  nonnegative, negative, xchange_status, error_no_device_provided, device, Xchange, post_message,
  posted, channel_ok, initiate_data_xfer,
}

-- The device with another queue, and what is left of the schedule of allocations.
abbrev pub with_tx : Private → Tx → Memory → Private
with_tx d t m = record d { tx = t; memory = m }

-- Posting a message of at least one byte to a valid channel of a device that is not closing and
-- whose queue holds sealed packages. Either the message is in the queue, and what is returned is
-- what the start of the transfer returns: the first package is the same as before, all packages
-- are sealed, and the payloads to send have grown by the message in packets of its channel. Or
-- -ENOMEM is returned, which takes a schedule of allocations that is not empty. Nothing else of
-- the device changes than the queue and the schedule.
pub post_message_lem :
    (d : Private) (first : Package) (behind : List Package) (msg : List ℕ) (channel : ℕ)
    (answer : Xchange)
    → d.tx.packages ≡ first ∷ behind
    → All IsSealed (first ∷ behind)
    → 0 < length msg
    → channel_ok channel ≡ true
    → d.closing ≡ false
    → let r = post_message (device d) (some msg) (length msg) channel answer in
      ((t' : Tx) × (m' : Memory) × (behind' : List Package) × (bytes : List ℕ) × (r
          ≡ some (initiate_data_xfer (with_tx d t' m') answer, device (with_tx d t' m')))
        × (t'.packages ≡ first ∷ behind')
        × All IsSealed t'.packages
        × Carries channel msg bytes
        × (stream t'.packages ≡ stream (first ∷ behind) ++ bytes))
      ⊎ ((t' : Tx) × (m' : Memory) × (r ≡ some (err Errno.enomem, device (with_tx d t' m')))
          × (d.memory ≢ []))
unfolding post_message posted
post_message_lem d first behind msg channel answer shape sealed pos valid running =
    elim (queue_append_message_lem d.tx first behind msg channel d.memory shape sealed pos) [
      | inl (t', m', behind', bytes, e, front, all, carries, grown) ↦ inl (
        t',
        m',
        behind',
        bytes,
        reached ∙ ap (posted d answer) e ∙ done t' m',
        front,
        all,
        carries,
        grown,
      )
      | inr (t', m', e, limited) ↦
          inr (t', m', reached ∙ ap (posted d answer) e ∙ failed t' m', limited)
    ]
  where
    reached :
        post_message (device d) (some msg) (length msg) channel answer
        ≡ posted d answer (queue_append_message d.tx msg (length msg) channel d.memory)
    reached = rw (valid, ==_ne (length msg) 0 (omega arith), running) refl

    done :
        (t : Tx) (m : Memory)
        → posted d answer (some (ok, t, m))
          ≡ some (initiate_data_xfer (with_tx d t m) answer, device (with_tx d t m))
    done t m = refl

    failed :
        (t : Tx) (m : Memory)
        → posted d answer (some (err Errno.enomem, t, m))
          ≡ some (err Errno.enomem, device (with_tx d t m))
    failed t m = refl

-- Starting a transfer takes no memory.
pub initiate_data_xfer_enomem :
    (d : Private) (answer : Xchange) → initiate_data_xfer d answer ≢ err Errno.enomem
unfolding initiate_data_xfer xchange_status
initiate_data_xfer_enomem d answer e = elim (Bool-cases (have_packages d.tx)) [
  | inr bare ↦ cc (simp bare at e)
  | inl some_there ↦ status answer (simp some_there at e)
]
  where
    status : (x : Xchange) → xchange_status x ≢ err Errno.enomem
    status (negative n) h = cc h
    status (nonnegative n) h = elim (Bool-cases (n == error_no_device_provided)) [
      | inl gone ↦ cc (simp gone at h)
      | inr there ↦ cc (simp there at h)
    ]
