-- ===== src/Device/Api.antt =====
-- driver/iccom.c, the kernel space API: init and close of a device, posting and reading messages,
-- and the channel callbacks. Pointers that the driver only checks are given as what the check
-- finds; the answers of the transport layer and of the work queue are arguments.
pub mod Post
pub mod Binded
pub mod Chain
pub mod Start
pub mod Read
use iccom_utils.Base.{ℕ, List, [], ◌&&◌, ◌^◌, ◌-◌}
use iccom_utils.Base.{Bool, true, false, not, Option, none, some, ◌==◌, ltb, if◌then◌else◌}
use iccom_utils.Kernel.{Status, ok, err, Errno, Memory, kmalloc_struct}
use iccom_utils.Storage.{Message, any_channel_value, invalid_message_id}
use iccom_utils.Storage.Query.{pop_first_ready_message}
use iccom_utils.Storage.Update.{storage_init}
use iccom_utils.Storage.Callback.{set_channel_callback, reset_channel_callback}
use iccom_utils.Storage.Callback.{get_channel_callback}
use iccom_utils.Device.{Private, Tx, Statistics, package_ack_value, package_nack_value}
use iccom_utils.Device.{add_u64, initial_package_id}
use iccom_utils.Device.Errors.{error_report_init}
use iccom_utils.Device.Queue.{have_packages, enqueue_empty_tx_data_package, queue_append_message}
use iccom_utils.Device.Callbacks.{fillup_next_data_xfer}

-- A `struct iccom_dev *`: a broken pointer, one whose private part is missing, or a device.
pub data Handle : Type 0 where
  no_device : Handle
  no_private : Handle
  device : Private → Handle

abbrev pub max_channel_id : ℕ
max_channel_id = 0x7FFF

-- The check of `ICCOM_CHECK_CHANNEL`; the channel is unsigned, so never below the least ID.
unfoldable pub channel_ok : ℕ → Bool
channel_ok channel = not (ltb max_channel_id channel && not (channel == any_channel_value))

-- The answer of the transport layer's `data_xchange`, an `int`.
pub data Xchange : Type 0 where
  nonnegative : ℕ → Xchange
  negative : ℕ → Xchange

-- `FULL_DUPLEX_ERROR_NO_DEVICE_PROVIDED`
abbrev pub error_no_device_provided : ℕ
error_no_device_provided = 7

-- The `switch` over the answer; the case of FULL_DUPLEX_ERROR_NOT_READY is that of the default.
xchange_status : Xchange → Status
xchange_status (negative n) = ok
xchange_status (nonnegative n) = if n == error_no_device_provided then err Errno.enodev else ok

pub initiate_data_xfer : Private → Xchange → Status
unfolding xchange_status
initiate_data_xfer d answer =
    if have_packages d.tx then xchange_status answer else err Errno.enodata

posted : Private → Xchange → Option (Status × Tx × Memory) → Option (Status × Handle)
posted d answer none = none
posted d answer (some (ok, t, m)) =
    let d' = record d { tx = t; memory = m } in some (initiate_data_xfer d' answer, device d')
posted d answer (some (err e, t, m)) = some (err e, device (record d { tx = t; memory = m }))

-- `message` is `none` for a broken data pointer. `none` means that the fuel of a loop ran out.
pub post_message : Handle → Option (List ℕ) → ℕ → ℕ → Xchange → Option (Status × Handle)
unfolding posted
post_message no_device message length channel answer = some (err Errno.enodev, no_device)
post_message no_private message length channel answer = some (err Errno.einval, no_private)
post_message (device d) none length channel answer =
    some (err (if channel_ok channel then Errno.einval else Errno.ebadslt), device d)
post_message (device d) (some content) length channel answer =
    let appended = queue_append_message d.tx content length channel d.memory in
    let result = posted d answer appended in
    if not (channel_ok channel)
    then some (err Errno.ebadslt, device d)
    else if length == 0
    then some (err Errno.enodata, device d)
    else if d.closing
    then some (err Errno.ebadfd, device d)
    else result

pub flush : Private → Xchange → Status
flush d answer = initiate_data_xfer d answer

-- A message as `iccom_read_message` hands it out: content, size and ID; NULL, 0 and the invalid
-- ID if there is none.
pub record Received : Type 0 where
  pub msg_data : List ℕ
  pub buf_size : ℕ
  pub msg_id : ℕ

hand_out : Option Message → Received
hand_out none = record { msg_data = []; buf_size = 0; msg_id = invalid_message_id }
hand_out (some m) = record { msg_data = m.content; buf_size = m.length; msg_id = m.id }

taken : Option Message → ℕ → ℕ
taken none ready = ready
taken (some m) ready = add_u64 ready (2 ^ 64 - 1)

-- `outputs_ok` tells that the pointers for the data and its size are valid. An error leaves the
-- outputs untouched.
pub read_message : Handle → ℕ → Bool → Status × Option Received × Handle
unfolding hand_out taken
read_message no_device channel outputs_ok = (err Errno.enodev, none, no_device)
read_message no_private channel outputs_ok = (err Errno.einval, none, no_private)
read_message (device d) channel outputs_ok =
    let (msg, storage) = pop_first_ready_message d.rx_messages channel in
    if not (channel_ok channel)
    then (err Errno.ebadslt, none, device d)
    else if d.closing
    then (err Errno.ebadfd, none, device d)
    else if not outputs_ok
    then (err Errno.efault, none, device d)
    else (
      ok,
      some (hand_out msg),
      device (record d {
        rx_messages = storage;
        statistics = record (d.statistics) {
          messages_ready_in_storage = taken msg d.statistics.messages_ready_in_storage;
        };
      }),
    )

-- `callback_ok` is false for an error pointer.
pub api_set_channel_callback : Handle → ℕ → Option ℕ → Bool → ℕ → Status × Handle
api_set_channel_callback no_device channel callback callback_ok consumer_data =
    (err Errno.enodev, no_device)
api_set_channel_callback no_private channel callback callback_ok consumer_data =
    (err Errno.einval, no_private)
api_set_channel_callback (device d) channel callback callback_ok consumer_data =
    let (status, s, m) =
      set_channel_callback d.rx_messages channel callback consumer_data d.memory in
    if not (channel_ok channel)
    then (err Errno.ebadslt, device d)
    else if d.closing
    then (err Errno.ebadfd, device d)
    else if callback_ok
    then (status, device (record d { rx_messages = s; memory = m }))
    else (err Errno.einval, device d)

pub api_remove_channel_callback : Handle → ℕ → Status × Handle
api_remove_channel_callback no_device channel = (err Errno.enodev, no_device)
api_remove_channel_callback no_private channel = (err Errno.einval, no_private)
api_remove_channel_callback (device d) channel =
    let (status, s, m) = reset_channel_callback d.rx_messages channel d.memory in
    if not (channel_ok channel)
    then (err Errno.ebadslt, device d)
    else if d.closing
    then (err Errno.ebadfd, device d)
    else (status, device (record d { rx_messages = s; memory = m }))

-- The callback with status `ok`, or the error that the returned pointer stands for.
pub api_get_channel_callback : Handle → ℕ → Status × Option ℕ
api_get_channel_callback no_device channel = (err Errno.enodev, none)
api_get_channel_callback no_private channel = (err Errno.einval, none)
api_get_channel_callback (device d) channel =
    if not (channel_ok channel)
    then (err Errno.ebadslt, none)
    else if d.closing
    then (err Errno.ebadfd, none)
    else (ok, get_channel_callback d.rx_messages channel)

-- The entries of a device in procfs: its folder and the file of its statistics.
pub record Entries : Type 0 where
  pub proc_root : Bool
  pub statistics_file : Bool

abbrev pub no_entries : Entries
no_entries = record { proc_root = false; statistics_file = false }

-- `__iccom_procfs_init` and the end of `__iccom_statistics_init`: whether procfs makes the folder
-- and the file. The results of both are not looked at.
pub made_entries : Bool → Bool → Entries
made_entries root file = record { proc_root = root; statistics_file = root && file }

-- What the surroundings of a new device decide: the pointers that are checked, the entries in
-- procfs, the content of the one field that is never set, the work queue, and the transport
-- layer's `init`.
pub record Surroundings : Type 0 where
  pub xfer_device_ok : Bool
  pub interface_ok : Bool
  pub root_made : Bool
  pub statistics_made : Bool
  pub stale_rx_package_id : ℕ
  pub work_queue_ok : Bool
  pub transport_init : Status

abbrev pub no_statistics : Statistics
no_statistics = record {
  transport_layer_xfers_done_count = 0;
  raw_bytes_xfered_via_transport_layer = 0;
  packages_xfered = 0;
  packages_sent_ok = 0;
  packages_received_ok = 0;
  packages_bad_data_received = 0;
  packages_duplicated_received = 0;
  packages_parsing_failed = 0;
  packets_received_ok = 0;
  messages_received_ok = 0;
  total_consumers_bytes_received_ok = 0;
  messages_ready_in_storage = 0;
}

empty_tx : Tx
empty_tx = record {
  packages = [];
  next_tx_package_id = initial_package_id;
  packages_in_tx_queue = 0;
}

new_private : Surroundings → Tx → Memory → Private
new_private w t m = fillup_next_data_xfer (record {
  tx = t;
  ack_val = package_ack_value;
  nack_val = package_nack_value;
  xfer = record { size_bytes = 0; data_tx = [] };
  data_xfer_stage = true;
  last_rx_package_id = w.stale_rx_package_id;
  rx_messages = storage_init;
  delivery_scheduled = false;
  closing = false;
  statistics = no_statistics;
  errors = error_report_init;
  memory = m;
})

-- What the `init` of the transport layer leads to.
started : Private → Status → Status × Handle
started d ok = (ok, device d)
started d (err e) = (err e, no_private)

-- The checks that end the initialisation in `goto free_…`, which leaves no private part.
init_checked : Surroundings → Status → Tx → Memory → Status × Handle
unfolding new_private started
init_checked w (err e) t m = (err e, no_private)
init_checked w ok t m =
    if w.work_queue_ok
    then started (new_private w t m) w.transport_init
    else (err Errno.eagain, no_private)

-- The private part that the initialisation leaves, on a valid `struct iccom_dev`.
init_private : Surroundings → Memory → Status × Handle
unfolding empty_tx init_checked
init_private w m =
    let (granted, m₁) = kmalloc_struct m in
    let (status, t, m₂) = enqueue_empty_tx_data_package empty_tx m₁ in
    if w.xfer_device_ok && w.interface_ok
    then if granted then init_checked w status t m₂ else (err Errno.enomem, no_private)
    else (err Errno.enodev, no_private)

-- The entries that it leaves: no `free_…` label removes them.
init_entries : Surroundings → Memory → Entries
unfolding made_entries
init_entries w m =
    if w.xfer_device_ok && w.interface_ok && (kmalloc_struct m).0
    then made_entries w.root_made w.statistics_made
    else no_entries

-- `iccom_init`: the status and the device, and the entries in procfs.
pub iccom_init : Surroundings → Memory → (Status × Handle) × Entries
unfolding init_private init_entries
iccom_init w m = (init_private w m, init_entries w m)

-- `iccom_close`: a second call while the first one runs changes nothing.
pub iccom_close : Handle → Entries → Bool → Handle × Entries
iccom_close no_device entries xfer_device_ok = (no_device, entries)
iccom_close no_private entries xfer_device_ok = (no_private, entries)
iccom_close (device d) entries xfer_device_ok =
    if xfer_device_ok
    then if d.closing then (device d, entries) else (no_private, no_entries)
    else (device d, entries)

unfoldable pub is_running : Handle → Bool
is_running no_device = false
is_running no_private = false
is_running (device d) = true
