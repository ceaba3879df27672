-- ===== src/Device/Api/Binded/Init.antt =====
-- The core with its transport layer: open, or not.
use iccom_utils.Base.{
  ℕ, ◌≡◌, refl, ap, ◌∙◌, ◌⊎◌, inl, inr, Bool, true, false, some, Bool-cases, ◌&&◌, if◌then◌else◌,
}
use iccom_utils.Kernel.{Status, ok, err, Errno, Memory, kmalloc_struct}
use iccom_utils.Storage.{any_channel_value}
use iccom_utils.Storage.Callback.{set_channel_callback, get_channel_callback}
use iccom_utils.Device.{Private, Tx}
use iccom_utils.Device.Callbacks.{fillup_next_data_xfer}
use iccom_utils.Device.Queue.{enqueue_empty_tx_data_package}
use iccom_utils.Device.Api.{
  Handle, no_private, device, Surroundings, is_running, api_set_channel_callback,
  api_get_channel_callback, Entries, no_entries, iccom_init, init_private, init_entries,
  made_entries, init_checked, new_private, started, empty_tx, iccom_close, channel_ok,
}
use iccom_utils.Device.Api.Binded.{iccom_init_binded, iccom_close_binded, bound}

-- A device that is not being closed.
abbrev pub IsOpen : Handle → Type 0
IsOpen h = (d : Private) × (h ≡ device d) × (d.closing ≡ false)

started_lem :
    (d : Private) (s : Status)
    → d.closing ≡ false
    → ((h : Handle) × (started d s ≡ (ok, h)) × IsOpen h)
      ⊎ ((e : Errno) × (started d s ≡ (err e, no_private)))
unfolding started
started_lem d ok idle = inl (device d, refl, (d, refl, idle))
started_lem d (err e) idle = inr (e, refl)

init_checked_lem :
    (w : Surroundings) (status : Status) (t : Tx) (m : Memory)
    → ((h : Handle) × (init_checked w status t m ≡ (ok, h)) × IsOpen h)
      ⊎ ((e : Errno) × (init_checked w status t m ≡ (err e, no_private)))
unfolding init_checked new_private fillup_next_data_xfer
init_checked_lem w (err e) t m = inr (e, refl)
init_checked_lem w ok t m = elim (Bool-cases w.work_queue_ok) [
  | inr no_queue ↦ inr (Errno.eagain, rw no_queue refl)
  | inl queue ↦ rw queue (started_lem (new_private w t m) w.transport_init refl)
]

init_private_lem :
    (w : Surroundings) (m : Memory)
    → ((h : Handle) × (init_private w m ≡ (ok, h)) × IsOpen h)
      ⊎ ((e : Errno) × (init_private w m ≡ (err e, no_private)))
unfolding init_private
init_private_lem w m = elim (Bool-cases (w.xfer_device_ok && w.interface_ok)) [
  | inr bad ↦ inr (Errno.enodev, rw bad refl)
  | inl good ↦ elim (Bool-cases (kmalloc_struct m).0) [
    | inr refused ↦ inr (Errno.enomem, rw (good, refused) refl)
    | inl granted ↦
        let r = enqueue_empty_tx_data_package empty_tx (kmalloc_struct m).1 in
        rw (good, granted) (init_checked_lem w r.0 r.1 r.2)
  ]
]

-- What an attempt that is made with these answers leaves in procfs.
abbrev pub left_entries : Surroundings → Memory → Entries
left_entries w m =
    if w.xfer_device_ok && w.interface_ok && (kmalloc_struct m).0
    then record { proc_root = w.root_made; statistics_file = w.root_made && w.statistics_made }
    else no_entries

iccom_init_lem :
    (w : Surroundings) (m : Memory)
    → ((h : Handle) × (iccom_init w m ≡ ((ok, h), left_entries w m)) × IsOpen h)
      ⊎ ((e : Errno) × (iccom_init w m ≡ ((err e, no_private), left_entries w m)))
unfolding iccom_init init_entries made_entries
iccom_init_lem w m = elim (init_private_lem w m) [
  | inl (h, e, opened) ↦ inl (h, ap (λ (r : Status × Handle). (r, left_entries w m)) e, opened)
  | inr (n, e) ↦ inr (n, ap (λ (r : Status × Handle). (r, left_entries w m)) e)
]

-- From a device that is not there. Also after an error the entries in procfs stay.
pub iccom_init_binded_lem :
    (w : Surroundings) (m : Memory)
    → let left = left_entries w m in
      ((h : Handle) × (iccom_init_binded no_private false no_entries w m ≡ (ok, h, true, left))
        × IsOpen h)
      ⊎ ((e : Errno) × (iccom_init_binded no_private false no_entries w m
            ≡ (err e, no_private, false, left)))
unfolding iccom_init_binded bound
iccom_init_binded_lem w m = elim (Bool-cases w.xfer_device_ok) [
  | inr bad ↦ inr (Errno.enodev, rw bad refl)
  | inl there ↦ elim (Bool-cases w.interface_ok) [
    | inr bad ↦ inr (Errno.einval, rw (there, bad) refl)
    | inl good ↦ elim (iccom_init_lem w m) [
      | inl (h, e, opened) ↦ inl (h, rw (e, there, good) refl, opened)
      | inr (n, e) ↦ inr (n, rw (e, there, good) refl)
    ]
  ]
]

-- An open device is closed with its transport layer and its entries.
pub iccom_close_binded_lem :
    (h : Handle) (running : Bool) (entries : Entries)
    → IsOpen h
    → iccom_close_binded h running entries ≡ (no_private, false, no_entries)
unfolding iccom_close_binded iccom_close
iccom_close_binded_lem h running entries (d, e, idle) =
    ap (λ x. iccom_close_binded x running entries) e ∙ rw idle refl

pub is_running_lem : (h : Handle) → IsOpen h → is_running h ≡ true
unfolding is_running
is_running_lem h (d, e, idle) = rw e refl

-- The callback for all channels is installed.
pub hook_all :
    (h : Handle) (callback consumer : ℕ)
    → IsOpen h
    → (h' : Handle) × (api_set_channel_callback h any_channel_value (some callback) true consumer
        ≡ (ok, h'))
      × IsOpen h'
      × (api_get_channel_callback h' any_channel_value ≡ (ok, some callback))
unfolding api_set_channel_callback api_get_channel_callback set_channel_callback
    get_channel_callback channel_ok
hook_all h callback consumer (d, e, idle) = simp (e, idle) (_, refl, (_, refl, refl), refl)
