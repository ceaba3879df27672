-- ===== src/Device/Receive.antt =====
-- driver/iccom.c, the way of a received package into the storage: `__iccom_read_next_packet` and
-- `__iccom_process_package_payload`.
pub mod Complete
pub mod Continue
pub mod Loop
use iccom_utils.Base.{ℕ, zero, suc, ◌+◌, ◌-◌, List, Bool, true, false, Option, none, some}
use iccom_utils.Base.{◌==◌, ltb, if◌then◌else◌, drop, ◌||◌}
use mathlib.Core.Option
use iccom_utils.Kernel.{Status, ok, err, Errno, Memory}
use iccom_utils.Packet.{Packet, packet_size_bytes, packet_parse_into_struct}
use iccom_utils.Storage.{Message, Storage}
use iccom_utils.Storage.Query.{get_last_unfinalized_message}
use iccom_utils.Storage.Update.{append_data_to_message, construct_message}
use iccom_utils.Storage.Commit.{rollback, commit}
use iccom_utils.Device.{Private, Statistics, add_u64}

-- The result of `__iccom_read_next_packet`: the bytes read, or an error number.
pub data Read : Type 0 where
  read : ℕ → Read
  failed : Errno → Read

-- The message that a packet extends: the last one of its channel, if that is not finalized, else
-- a new one; `none` if there is no memory for it.
target_of : Option Message → Storage → ℕ → Memory → Option Message × Storage × Memory
target_of (some msg) s channel m = (some msg, s, m)
target_of none s channel m = construct_message s channel m

pub target_message : Storage → ℕ → Memory → Option Message × Storage × Memory
unfolding target_of
target_message s channel m = target_of (get_last_unfinalized_message s channel) s channel m

store_to : Option Message → Packet → Storage → Memory → Status × Storage × Memory
store_to none p s m = (err Errno.enomem, s, m)
store_to (some msg) p s m =
    append_data_to_message s msg.channel msg.id p.payload p.payload_length p.finalizing m

-- A parsed packet into the storage.
pub store_packet : Storage → Packet → Memory → Status × Storage × Memory
unfolding store_to
store_packet s p m = let (target, s', m') = target_message s p.channel m in store_to target p s' m'

read_result : Packet → Status → Read
read_result p ok = read (packet_size_bytes p.payload_length)
read_result p (err e) = failed e

count_result : Packet → ℕ → Status → ℕ
count_result p before ok = p.payload_length
count_result p before (err e) = before

-- What follows the parsing of a packet.
read_packet : Option Packet → Storage → ℕ → Memory → Read × ℕ × Storage × Memory
unfolding read_result count_result
read_packet none s before m = (failed Errno.einval, before, s, m)
read_packet (some p) s before m =
    let (status, s', m') = store_packet s p m in
    (read_result p status, count_result p before status, s', m')

-- Also the value of `*consumer_bytes_count__out`, which is `before` unless it is written.
pub read_next_packet : Storage → List ℕ → ℕ → ℕ → Memory → Read × ℕ × Storage × Memory
unfolding read_packet
read_next_packet s start max_bytes_available before m =
    if max_bytes_available == 0
    then (read 0, before, s, m)
    else read_packet (packet_parse_into_struct start max_bytes_available) s before m

-- How the loop over the packets ends: the packets done and the last consumer byte count, or a
-- failure.
pub record Parsed : Type 0 where
  pub success : Bool
  pub packets_done : ℕ
  pub consumer_bytes : ℕ
  pub storage : Storage
  pub memory : Memory

ended : Bool → ℕ → ℕ → Storage → Memory → Parsed
ended success done bytes s m = record {
  success = success;
  packets_done = done;
  consumer_bytes = bytes;
  storage = s;
  memory = m;
}

-- `bytes_read`, with 0 for all that is not positive.
abbrev pub bytes_read : Read → ℕ
bytes_read (read n) = n
bytes_read (failed e) = 0

-- The `while` loop, on fuel; `none` means that the fuel ran out.
unfoldable pub parse_loop : ℕ → Storage → List ℕ → ℕ → ℕ → ℕ → Memory → Option Parsed
unfolding ended
parse_loop zero s start left done bytes m = none
parse_loop (suc fuel) s start left done bytes m =
    let (result, bytes', s', m') = read_next_packet s start left bytes m in
    let n = bytes_read result in
    let next = parse_loop fuel s' (drop n start) (left - n) (done + 1) bytes' m' in
    if left == 0
    then some (ended true done bytes s m)
    else if n == 0
    then some (ended false done bytes' s' m')
    else next

-- What follows the loop.
unfoldable pub finish : Private → Parsed → Status × Private
finish d p =
    let finalized = p.storage.uncommitted_finalized_count in
    if p.success
    then (
      ok,
      record d {
        rx_messages = commit p.storage;
        memory = p.memory;
        statistics = record (d.statistics) {
          packets_received_ok = add_u64 d.statistics.packets_received_ok p.packets_done;
          messages_received_ok = add_u64 d.statistics.messages_received_ok finalized;
          total_consumers_bytes_received_ok =
              add_u64 d.statistics.total_consumers_bytes_received_ok p.consumer_bytes;
          messages_ready_in_storage = add_u64 d.statistics.messages_ready_in_storage finalized;
        };
        delivery_scheduled = ltb 0 finalized || d.delivery_scheduled;
      },
    )
    else (err Errno.ebadmsg, record d { rx_messages = rollback p.storage; memory = p.memory })

-- Every packet takes at least a byte, so one round for each byte and one more are enough.
unfoldable pub process_package_payload : Private → List ℕ → ℕ → Option (Status × Private)
process_package_payload d start payload_size =
    Option.map (finish d)
      (parse_loop (payload_size + 1) d.rx_messages start payload_size 0 0 d.memory)
