-- ===== src/Device/Callbacks.antt =====
-- driver/iccom.c, the return points of the transport layer: `__iccom_xfer_done_callback` and
-- `__iccom_xfer_failed_callback`, and the notification of consumers.
pub mod Ack
pub mod Stages
use iccom_utils.Base.{ℕ, zero, suc, ◌+◌, ◌-◌, ◌%◌, ◌^◌, List, [], ◌∷◌, drop, length}
use iccom_utils.Base.{Bool, true, false, not, ◌&&◌, Option, none, some, ◌==◌, if◌then◌else◌, get_or}
use mathlib.Core.Option
use iccom_utils.Kernel.{Status, ok, err}
use iccom_utils.Package.{Package, ack_xfer_size, payload_start_offset, get_id, verify_package_data}
use iccom_utils.Storage.Deliver.{Notification, Ownership, Arrivals, pass_ready_data_to_consumer}
use iccom_utils.Device.{Private, Statistics, Tx, Xfer, add_u64, package_ack_value}
use iccom_utils.Device.Errors.{error_report, error_transport}
use iccom_utils.Device.Queue.{get_first_tx_package, queue_step_forward}
use iccom_utils.Device.Receive.{process_package_payload}

xfer_of : Xfer → Option Package → Xfer
xfer_of before none = before
xfer_of before (some p) = record { size_bytes = p.size; data_tx = p.bytes }

-- The first package of the queue; the queue is never empty here.
unfoldable pub fillup_next_data_xfer : Private → Private
unfolding xfer_of
fillup_next_data_xfer d = record d { xfer = xfer_of d.xfer (get_first_tx_package d.tx) }

unfoldable pub fillup_ack_xfer : Private → Bool → Private
fillup_ack_xfer d ack = record d {
  xfer = record {
    size_bytes = ack_xfer_size;
    data_tx = (if ack then d.ack_val else d.nack_val) ∷ [];
  };
}

unfoldable pub verify_ack : Package → Bool
verify_ack p = p.size == ack_xfer_size && get_or p.bytes 0 0 == package_ack_value

abbrev with_statistics : (Statistics → Statistics) → Private → Private
with_statistics f d = record d { statistics = f d.statistics }

-- What follows the parsing of a package of a new ID: the answer is ACK only if all of the payload
-- went into the storage.
unfoldable pub parsed : Package → Status × Private → Private
parsed rx (ok, d) =
    fillup_ack_xfer
      (with_statistics
        (λ st. record st { packages_received_ok = add_u64 st.packages_received_ok 1 })
        (record d { last_rx_package_id = get_id rx }))
      true
parsed rx (err e, d) =
    with_statistics
      (λ st. record st { packages_parsing_failed = add_u64 st.packages_parsing_failed 1 })
      (fillup_ack_xfer d false)

-- What follows the verification of a package.
unfoldable pub verified : Private → Package → Option ℕ → Option Private
verified d rx none = some (
    with_statistics
      (λ st. record st { packages_bad_data_received = add_u64 st.packages_bad_data_received 1 })
      (fillup_ack_xfer d false))
verified d rx (some payload_size) =
    let received =
      Option.map (parsed rx)
        (process_package_payload d (drop payload_start_offset rx.bytes) payload_size) in
    if get_id rx == d.last_rx_package_id
    then some (
        with_statistics
          (λ st. record st {
            packages_duplicated_received = add_u64 st.packages_duplicated_received 1;
          })
          (fillup_ack_xfer d true))
    else received

-- The data stage: verify the package, drop one that is here already, and answer.
unfoldable pub data_stage : Private → Package → Option Private
data_stage d rx = verified d rx (verify_package_data rx)

-- The delivered package is off the queue and counted.
abbrev pub stepped : Private → Tx → Private
stepped d tx =
    with_statistics (λ st. record st { packages_sent_ok = add_u64 st.packages_sent_ok 1 })
      (record d { tx = tx })

-- The ack stage, with `*start_immediately__out`.
unfoldable pub ack_stage : Private → Package → Private × Bool
ack_stage d rx =
    let (have_data, tx) = queue_step_forward d.tx in
    if verify_ack rx
    then (fillup_next_data_xfer (stepped d tx), have_data)
    else (fillup_next_data_xfer d, true)

-- What a callback of the transport layer returns. `halted` is an error pointer.
pub data Outcome : Type 0 where
  halted : Outcome
  next_xfer : Private → Bool → Outcome

abbrev pub switch_stage : Private → Private
switch_stage d = record d { data_xfer_stage = not d.data_xfer_stage }

-- The counters of the transport layer, and in the data stage that of the packages.
unfoldable pub count_xfer : Private → ℕ → Private
count_xfer d size =
    with_statistics
      (λ st. record st {
        raw_bytes_xfered_via_transport_layer = add_u64 st.raw_bytes_xfered_via_transport_layer size;
        transport_layer_xfers_done_count = add_u64 st.transport_layer_xfers_done_count 1;
        packages_xfered =
            if d.data_xfer_stage then add_u64 st.packages_xfered 1 else st.packages_xfered;
      })
      d

-- `none` means that the fuel of a loop ran out. The received data is `done_xfer->data_rx_buf`
-- of `size_bytes` bytes, `none` for a broken pointer.
unfoldable pub xfer_done_callback : Private → Option (List ℕ) → ℕ → Option Outcome
unfolding count_xfer
xfer_done_callback d none size_bytes = some halted
xfer_done_callback d (some rx_buf) size_bytes =
    let rx : Package = record { bytes = rx_buf; size = size_bytes; owns_data = false } in
    let counted = count_xfer d size_bytes in
    let answered = data_stage counted rx in
    let (next, start_immediately) = ack_stage counted rx in
    if d.closing
    then some halted
    else if d.data_xfer_stage
    then Option.map (λ d'. next_xfer (switch_stage d') true) answered
    else some (next_xfer (switch_stage next) start_immediately)

-- A failed xfer: to the ack stage, with NACK.
unfoldable pub xfer_failed_callback : Private → ℕ → Outcome
xfer_failed_callback d now_ns =
    let reported = record d { errors = (error_report d.errors error_transport now_ns).0 } in
    if d.closing
    then halted
    else next_xfer (record (fillup_ack_xfer reported false) { data_xfer_stage = false }) false

-- The scheduled work: delivers what is ready, and takes it off the counter. Of what other contexts
-- do in the meantime, the messages that they add to the channels are an argument.
unfoldable pub consumer_notification_routine :
    Ownership → (ℕ → Arrivals) → Private → List Notification × Private
consumer_notification_routine owned arrivals d =
    let (calls, storage) = pass_ready_data_to_consumer owned arrivals d.rx_messages in
    (
      calls,
      record d {
        rx_messages = storage;
        delivery_scheduled = false;
        statistics = record (d.statistics) {
          messages_ready_in_storage =
              (d.statistics.messages_ready_in_storage + 2 ^ 64 - length calls % 2 ^ 64) % 2 ^ 64;
        };
      },
    )
