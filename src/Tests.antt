-- ===== src/Tests.antt =====
-- The theorems at concrete inputs: a queue of one empty package, a storage of one channel, and a
-- device that has just been initialised.
use iccom_utils.Base.{ℕ, ◌≤◌, ◌≡◌, ◌≢◌, ◌↔◌, ◌⊎◌, refl, arith, ap, ◌∙◌, List, [], ◌∷◌, ◌++◌, map}
use iccom_utils.Base.{Bool, true, false, none, some, All, replicate, if◌then◌else◌}
use mathlib.Core.Option
use iccom_utils.Base.{length}
use Prim.Native.Nat.{max}
use iccom_utils.Kernel.{be16, ok, err, Errno, Memory}
use iccom_utils.Crc.{compute_crc32}
use iccom_utils.Package.{
  Package, data_xfer_size, package_finalize, get_id, word32, verify_package_data,
}
use iccom_utils.Package.Layout.{Fits, pkg, get_id-pkg}
use iccom_utils.Package.Finalize.{
  padding, Fits-padding, package_finalize-pkg, verify_package_data_iff, verify-package_finalize,
}
use iccom_utils.Packet.{packet_parse_into_struct}
use iccom_utils.Packet.Codec.{encode, packet_of, parse-encode}
use iccom_utils.Storage.{
  Message, Channel, Storage, message_init, message_is_ready, find_channel, find_in,
}
use iccom_utils.Storage.Update.{extend, collect_garbage, channel_has_no_data, list_empty}
use iccom_utils.Storage.Update.Garbage.{collect_garbage_lem}
use iccom_utils.Storage.Query.{pop_first_ready_message}
use iccom_utils.Storage.Query.Pop.{pop_first_ready_message_lem, IsWaiting}
use iccom_utils.Storage.Commit.{rollback_message, commit_message, channel_commit}
use iccom_utils.Storage.Commit.Transaction.{settle-extend, IsSettled, bytes_of}
use iccom_utils.Storage.Commit.Settled.{IsCommitted}
use iccom_utils.Storage.Callback.{set_channel_callback, get_channel_callback}
use iccom_utils.Storage.Callback.Install.{set_channel_callback_lem}
use iccom_utils.Base.{take}
use iccom_utils.Storage.Deliver.{Ownership, Arrivals, notify, consumer_of, pass_channel_to_consumer}
use iccom_utils.Storage.Deliver.Fifo.{pass_channel_to_consumer_lem, select, arrived}
use iccom_utils.Device.{Tx, Private, Statistics, package_ack_value, package_nack_value}
use iccom_utils.Device.Errors.{exp_avg}
use iccom_utils.Device.Errors.Bounds.{exp_avg_between}
use iccom_utils.Device.Queue.{queue_append_message, have_multiple_packages}
use iccom_utils.Device.Queue.Enqueue.{IsSealed, stream}
use iccom_utils.Device.Queue.Post.{queue_append_message_lem, Posted}
use iccom_utils.Device.Receive.{Parsed, finish, parse_loop, process_package_payload}
use iccom_utils.Device.Receive.Continue.{IsOpen, with_last}
use iccom_utils.Device.Receive.Complete.{process_package_payload-Carries}
use iccom_utils.Packet.Message.{Carries, whole}
use iccom_utils.Device.Api.{Handle, nonnegative, post_message, initiate_data_xfer, channel_ok}
use iccom_utils.Device.Api.Post.{post_message_lem, with_tx}
use iccom_utils.Device.Receive.Loop.{process_package_payload-ends}
use iccom_utils.Device.Callbacks.{
  data_stage, ack_stage, verify_ack, parsed, verified, fillup_ack_xfer,
}
use iccom_utils.Device.Callbacks.Stages.{data_stage_lem, data_stage-again, Accepted, Refused}
use iccom_utils.Device.Callbacks.Ack.{ack_stage_lem, SendsFirst}

abbrev no_bytes : List ℕ
no_bytes = []

abbrev three_bytes : List ℕ
three_bytes = 1 ∷ 2 ∷ 3 ∷ []

abbrev unused : List ℕ
unused = 9 ∷ 255 ∷ []

abbrev zeros : ℕ → List ℕ
zeros n = replicate n 0

-- An empty package over zeroed memory, before and after it is finalised.
abbrev blank : Package
blank = pkg data_xfer_size true 1 [] (zeros 249) (zeros 4)

blank-Fits : Fits data_xfer_size no_bytes (zeros 249) (zeros 4)
blank-Fits = record { sizes = refl; crc = refl; small = omega arith }

abbrev first : Package
first = package_finalize blank

first-IsSealed : IsSealed first
first-IsSealed = record {
  id = 1;
  content = [];
  free = zeros 249;
  crc = zeros 4;
  fits = blank-Fits;
  made = refl;
}

abbrev queue : Tx
queue = record { packages = first ∷ []; next_tx_package_id = 2; packages_in_tx_queue = 1 }

queue_append_message_lem_example :
    Posted (first ∷ []) first three_bytes 5 [] (queue_append_message queue three_bytes 3 5 [])
queue_append_message_lem_example =
    queue_append_message_lem queue first [] three_bytes 5 [] refl (first-IsSealed, tt) (omega arith)

abbrev tiny : Package
tiny = pkg 20 false 7 [] (zeros 13) (zeros 4)

tiny-Fits : Fits 20 no_bytes (zeros 13) (zeros 4)
tiny-Fits = record { sizes = refl; crc = refl; small = omega arith }

verify-package_finalize_example : verify_package_data (package_finalize tiny) ≡ some 0
verify-package_finalize_example = verify-package_finalize false 7 tiny-Fits

verify_package_data_iff_example :
    (verify_package_data (pkg 12 false 7 three_bytes (unused) (zeros 4)) ≡ some 3) ↔ (
      (unused ≡ padding (unused))
      × (word32 (zeros 4) ≡ compute_crc32 (be16 3 ++ 7 ∷ (three_bytes ++ unused))))
verify_package_data_iff_example =
    verify_package_data_iff false 7 {c = three_bytes} {f = unused} {k = zeros 4}
      (record { sizes = refl; crc = refl; small = omega arith }) (omega arith, (omega arith, tt))

parse-encode_example :
    packet_parse_into_struct (encode three_bytes 0x1234 true ++ 0xFF ∷ []) 8
    ≡ some (packet_of three_bytes 0x1234 true)
parse-encode_example =
    parse-encode three_bytes (0xFF ∷ []) 0x1234 true 8 (omega arith) (omega arith) (omega arith)

abbrev message : ℕ → Bool → Message
message id finalized = record message_init {
  id = id;
  channel = 5;
  content = three_bytes;
  length = 3;
  finalized = finalized;
}

abbrev channel_5 : Channel
channel_5 = record {
  channel = 5;
  messages = message 1 true ∷ message 2 false ∷ [];
  current_last_message_id = 2;
  consumer_callback_data = 0;
  message_ready_callback = some 77;
}

abbrev store : Storage
store = record {
  channels = channel_5 ∷ [];
  message_ready_global_callback = none;
  global_consumer_data = 0;
  uncommitted_finalized_count = 0;
}

settle-extend_example :
    let r = rollback_message (extend (8 ∷ 9 ∷ []) 2 true (message 2 false)) in
    let c = commit_message (extend (8 ∷ 9 ∷ []) 2 true (message 2 false)) in
    (bytes_of r ≡ three_bytes)
    × (r.length ≡ 3)
    × (message_is_ready r ≡ false)
    × IsSettled r
    × (bytes_of c ≡ three_bytes ++ 8 ∷ 9 ∷ [])
    × (message_is_ready c ≡ true)
    × IsSettled c
unfolding message_init
settle-extend_example =
    settle-extend (message 2 false) (8 ∷ 9 ∷ []) true
      (record { committed = refl; allocated = omega arith }) refl (omega arith)

abbrev frees : Ownership
frees channel m = false

-- Two messages are added during the first call, one of them ready.
abbrev arrivals : Arrivals
arrivals = (message 3 true ∷ message 4 false ∷ []) ∷ []

pass_channel_to_consumer_lem_example :
    let (calls, c') = pass_channel_to_consumer frees arrivals store channel_5 in
    let seen = channel_5.messages ++ arrived (take (length calls) arrivals) in
    (calls ≡ map (notify frees 77 0 5) (select true seen))
    × (c' ≡ record channel_5 { messages = select false seen })
unfolding consumer_of
pass_channel_to_consumer_lem_example =
    pass_channel_to_consumer_lem frees arrivals store channel_5 77 0 refl

exp_avg_between_example :
    (100 ≤ exp_avg 1000 100) × (exp_avg 1000 100 ≤ max 1000 1) × (1 ≤ exp_avg 1000 100)
exp_avg_between_example =
    exp_avg_between 1000 100 100 1000 (omega arith) (omega arith) (omega arith) (omega arith)
      (omega arith)

pop_first_ready_message_lem_example :
    let (popped, s') = pop_first_ready_message store 5 in
    (((popped ≡ none) × All IsWaiting channel_5.messages × (find_channel s' 5 ≡ some channel_5))
      ⊎ ((before : List Message) × (m : Message) × (behind : List Message) × (popped ≡ some m)
          × (message_is_ready m ≡ true)
          × All IsWaiting before
          × (channel_5.messages ≡ before ++ m ∷ behind)
          × (find_channel s' 5 ≡ some (record channel_5 { messages = before ++ behind }))))
    × (find_channel s' 6 ≡ find_channel store 6)
unfolding find_channel find_in
pop_first_ready_message_lem_example =
    pop_first_ready_message_lem store 5 channel_5 6 refl (omega arith)

abbrev statistics : Statistics
statistics = record {
  transport_layer_xfers_done_count = 0;
  raw_bytes_xfered_via_transport_layer = 0;
  packages_xfered = 0;
  packages_sent_ok = 0;
  packages_received_ok = 0;
  packages_bad_data_received = 0;
  packages_duplicated_received = 0;
  packages_parsing_failed = 0;
  packets_received_ok = 0;
  messages_received_ok = 0;
  total_consumers_bytes_received_ok = 0;
  messages_ready_in_storage = 0;
}

abbrev pub device : Private
device = record {
  tx = queue;
  ack_val = package_ack_value;
  nack_val = package_nack_value;
  xfer = record { size_bytes = data_xfer_size; data_tx = first.bytes };
  data_xfer_stage = true;
  last_rx_package_id = 0;
  rx_messages = store;
  delivery_scheduled = false;
  closing = false;
  statistics = statistics;
  errors = [];
  memory = [];
}

process_package_payload-ends_example :
    (p : Parsed) × (process_package_payload device (encode three_bytes 5 true) 7
      ≡ some (finish device p))
process_package_payload-ends_example =
    process_package_payload-ends device (encode three_bytes 5 true) 7

data_stage_lem_example :
    (d' : Private) × (data_stage device first ≡ some d')
    × (d'.tx ≡ device.tx)
    × IsCommitted d'.rx_messages
    × (Accepted device first d' ⊎ Refused device d')
unfolding message_init
data_stage_lem_example = data_stage_lem device first ((refl, (refl, tt)), tt)

ack_stage_lem_example :
    let (d', start) = ack_stage device first in
    SendsFirst d'
    × All IsSealed d'.tx.packages
    × (stream d'.tx.packages ≡ (if verify_ack first then stream [] else stream (first ∷ [])))
    × (start ≡ (if verify_ack first then have_multiple_packages device.tx else true))
ack_stage_lem_example = ack_stage_lem device first first [] refl (first-IsSealed, tt)

-- What the first package makes of the device: it is new, and empty.
abbrev answered : Private
answered = parsed first (
    finish device (record {
      success = true;
      packets_done = 0;
      consumer_bytes = 0;
      storage = store;
      memory = [];
    }))

id_first : get_id first ≡ 1
id_first =
    ap get_id (package_finalize-pkg true 1 blank-Fits)
    ∙ get_id-pkg true 1 (Fits-padding 1 blank-Fits)

accepted : data_stage device first ≡ some answered
unfolding data_stage verified process_package_payload parse_loop
accepted = rw (verify-package_finalize true 1 blank-Fits, id_first) refl

data_stage-again_example :
    (d'' : Private) × (data_stage answered first ≡ some d'')
    × (d''.rx_messages ≡ answered.rx_messages)
    × (d''.last_rx_package_id ≡ get_id first)
    × (d''.xfer.data_tx ≡ answered.ack_val ∷ [])
unfolding parsed finish fillup_ack_xfer
data_stage-again_example = data_stage-again device first answered (omega arith) accepted refl

set_channel_callback_lem_example :
    let (status, s', m') = set_channel_callback store 9 (some 4) 1 [] in
    ((status ≡ ok) × (get_channel_callback s' 9 ≡ some 4)
      ⊎ (status ≡ err Errno.enomem) × (get_channel_callback s' 9 ≡ none))
    × (get_channel_callback s' 5 ≡ get_channel_callback store 5)
set_channel_callback_lem_example = set_channel_callback_lem store 9 (some 4) 1 [] 5 (omega arith)

-- The second message of the channel is unfinished.
store-IsOpen : IsOpen store 5 channel_5 (message 1 true ∷ []) (message 2 false)
unfolding find_channel find_in message_init
store-IsOpen = record {
  found = refl;
  shape = refl;
  fresh = (omega arith, tt);
  unfinished = refl;
  placed = refl;
  allocated = omega arith;
}

process_package_payload-Carries_example :
    (d' : Private) × (m' : Message) × (process_package_payload device
        (encode three_bytes 5 true ++ unused)
        (length (encode three_bytes 5 true))
      ≡ some (ok, d'))
    × (find_channel d'.rx_messages 5
        ≡ some (with_last channel_5 (map commit_message (message 1 true ∷ [])) m'))
    × (bytes_of m' ≡ bytes_of (message 2 false) ++ three_bytes)
    × (message_is_ready m' ≡ true)
    × (find_channel d'.rx_messages 6 ≡ Option.map channel_commit (find_channel store 6))
process_package_payload-Carries_example =
    process_package_payload-Carries device 5 6 channel_5 (message 1 true ∷ []) (message 2 false)
      three_bytes (encode three_bytes 5 true) unused refl (omega arith) (omega arith) store-IsOpen
      (whole three_bytes (omega arith) (omega arith))

post_message_lem_example :
    let r = post_message (Handle.device device) (some three_bytes) 3 5 (nonnegative 0) in
    ((t' : Tx) × (m' : Memory) × (behind' : List Package) × (bytes : List ℕ) × (r
        ≡ some (
          initiate_data_xfer (with_tx device t' m') (nonnegative 0),
          Handle.device (with_tx device t' m'),
        ))
      × (t'.packages ≡ first ∷ behind')
      × All IsSealed t'.packages
      × Carries 5 three_bytes bytes
      × (stream t'.packages ≡ stream (first ∷ []) ++ bytes))
    ⊎ ((t' : Tx) × (m' : Memory) × (r
          ≡ some (err Errno.enomem, Handle.device (with_tx device t' m')))
        × (device.memory ≢ []))
unfolding channel_ok
post_message_lem_example =
    post_message_lem device first [] three_bytes 5 (nonnegative 0) refl (first-IsSealed, tt)
      (omega arith) refl refl

collect_garbage_lem_example :
    (find_channel (collect_garbage store) 5 ≡ some channel_5)
    × All (λ (d : Channel). channel_has_no_data d ≡ false) (collect_garbage store).channels
unfolding find_channel find_in channel_has_no_data list_empty
collect_garbage_lem_example = collect_garbage_lem store 5 channel_5 refl refl
