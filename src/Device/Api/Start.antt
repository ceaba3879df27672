-- ===== src/Device/Api/Start.antt =====
-- A device that has just been initialised.
use iccom_utils.Base.{
  ◌≡◌, ◌≢◌, refl, ap, subst, ◌⊎◌, inl, inr, true, false, ◌&&◌, [], ◌∷◌, Bool-cases,
}
use iccom_utils.Kernel.{Status, ok, err, Errno, Memory, kmalloc_struct}
use iccom_utils.Package.{Package, get_id}
use iccom_utils.Storage.Update.{storage_init}
use iccom_utils.Device.{Private, Tx, package_ack_value, package_nack_value}
use iccom_utils.Device.Queue.{enqueue_empty_tx_data_package}
use iccom_utils.Device.Queue.Enqueue.{IsSealed}
use iccom_utils.Device.Queue.Step.{first_tx_package-cons}
use iccom_utils.Device.Queue.Chain.{IsChained}
use iccom_utils.Device.Queue.First.{IsNew, enqueue_empty-IsNew, enqueue_empty-nil}
use iccom_utils.Device.Callbacks.{fillup_next_data_xfer}
use iccom_utils.Device.Api.{
  Handle, no_private, device, Surroundings, iccom_init, init_private, init_checked, new_private,
  started, empty_tx,
}

-- One sealed package with the first ID is queued and sent next, nothing is stored.
pub record IsStarted (w : Surroundings) (d : Private) : Type 0 where
  pub first : Package
  pub shape : d.tx.packages ≡ first ∷ []
  pub sealed : IsSealed first
  pub id : get_id first ≡ 1
  pub chained : IsChained d.tx
  pub sends : d.xfer.data_tx ≡ first.bytes
  pub idle : d.closing ≡ false
  pub stage : d.data_xfer_stage ≡ true
  pub acks : d.ack_val ≡ package_ack_value
  pub nacks : d.nack_val ≡ package_nack_value
  pub last : d.last_rx_package_id ≡ w.stale_rx_package_id
  pub stored : d.rx_messages ≡ storage_init

new_private-IsStarted :
    (w : Surroundings) (t : Tx) (m : Memory) → IsNew t → IsStarted w (new_private w t m)
unfolding new_private fillup_next_data_xfer
new_private-IsStarted w t m (p, shape, sealed, id, chained) = record {
  first = p;
  shape = shape;
  sealed = sealed;
  id = id;
  chained = chained;
  sends = rw (first_tx_package-cons t p [] shape) refl;
  idle = refl;
  stage = refl;
  acks = refl;
  nacks = refl;
  last = refl;
  stored = refl;
}

device_inj : (d d' : Private) → ◌≡◌ {A = Status × Handle} (ok, device d) (ok, device d') → d ≡ d'
device_inj d d' h = cc h

failed_inj :
    (e : Errno) (h : Handle) (d : Private) → ◌≢◌ {A = Status × Handle} (err e, h) (ok, device d)
failed_inj e h d x = cc x

started-IsStarted :
    (w : Surroundings) (d d' : Private) (s : Status)
    → IsStarted w d
    → started d s ≡ (ok, device d')
    → IsStarted w d'
unfolding started
started-IsStarted w d d' ok h e = subst (IsStarted w) (device_inj d d' e) h
started-IsStarted w d d' (err x) h e = absurd (failed_inj x no_private d' e)

checked-IsStarted :
    (w : Surroundings) (s : Status) (t : Tx) (m : Memory) (d : Private)
    → IsNew t ⊎ ((e : Errno) × (s ≡ err e))
    → init_checked w s t m ≡ (ok, device d)
    → IsStarted w d
unfolding init_checked
checked-IsStarted w (err x) t m d h e = absurd (failed_inj x no_private d e)
checked-IsStarted w ok t m d (inr (x, bad)) e = absurd (cc bad)
checked-IsStarted w ok t m d (inl new) e = elim (Bool-cases w.work_queue_ok) [
  | inl queue ↦
      started-IsStarted w (new_private w t m) d w.transport_init (new_private-IsStarted w t m new)
        (simp queue at e)
  | inr none_there ↦ absurd (failed_inj Errno.eagain no_private d (simp none_there at e))
]

enqueued-IsNew :
    (m : Memory)
    → let r = enqueue_empty_tx_data_package empty_tx m in IsNew r.1 ⊎ ((e : Errno) × (r.0 ≡ err e))
unfolding empty_tx
enqueued-IsNew m = elim (enqueue_empty-IsNew m) [
  | inl new ↦ inl new
  | inr (t, m', e) ↦ inr (Errno.enomem, ap status_of e)
]
  where
    status_of : Status × Tx × Memory → Status
    status_of r = r.0

pub iccom_init-IsStarted :
    (w : Surroundings) (m : Memory) (d : Private)
    → (iccom_init w m).0 ≡ (ok, device d)
    → IsStarted w d
unfolding iccom_init init_private
iccom_init-IsStarted w m d e = elim (Bool-cases (w.xfer_device_ok && w.interface_ok)) [
  | inr bad ↦ absurd (failed_inj Errno.enodev no_private d (simp bad at e))
  | inl good ↦ elim (Bool-cases (kmalloc_struct m).0) [
    | inr refused ↦ absurd (failed_inj Errno.enomem no_private d (simp (good, refused) at e))
    | inl granted ↦
        let r = enqueue_empty_tx_data_package empty_tx (kmalloc_struct m).1 in
        checked-IsStarted w r.0 r.1 r.2 d (enqueued-IsNew (kmalloc_struct m).1)
          (simp (good, granted) at e)
  ]
]

-- What a device starts as if all memory is granted.
pub initial : Surroundings → Private
initial w = let (_, t, m) = enqueue_empty_tx_data_package empty_tx [] in new_private w t m

pub iccom_init-initial :
    (w : Surroundings)
    → w.xfer_device_ok && w.interface_ok ≡ true
    → w.work_queue_ok ≡ true
    → w.transport_init ≡ ok
    → (iccom_init w []).0 ≡ (ok, device (initial w))
unfolding iccom_init init_private init_checked started initial kmalloc_struct
iccom_init-initial w good queue layer =
    simp (good, (enqueue_empty-nil empty_tx).0, queue, layer) refl

pub initial-memory : (w : Surroundings) → (initial w).memory ≡ []
unfolding initial new_private fillup_next_data_xfer
initial-memory w = (enqueue_empty-nil empty_tx).1
