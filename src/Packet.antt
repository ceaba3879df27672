-- ===== src/Packet.antt =====
-- driver/iccom.c, packets: `iccom_package_header`, `struct iccom_packet` and the functions that
-- write a packet into a package and parse it back.
pub mod Codec
pub mod Add
pub mod Message
pub mod Identity
use iccom_utils.Base.{ℕ, ◌+◌, ◌-◌, ◌*◌, ◌/◌, ◌%◌, ◌^◌, List, [], ◌∷◌, ◌++◌}
use iccom_utils.Base.{Bool, true, false, Option, none, some}
use iccom_utils.Base.{◌==◌, ltb, leb, if◌then◌else◌, get_or, take, drop, write_at}
use iccom_utils.Kernel.{be16}
use iccom_utils.Package.{
  Package, payload_size, payload_free_space, free_space_start, set_payload_size,
}

-- `struct iccom_packet` with the bytes that `payload` points to.
pub record Packet : Type 0 where
  pub payload : List ℕ
  pub payload_length : ℕ
  pub channel : ℕ
  pub finalizing : Bool

-- `ICCOM_PACKET_HEADER_SIZE_BYTES`
abbrev pub header_size : ℕ
header_size = 2 + 1 + 1

unfoldable pub packet_size_bytes : ℕ → ℕ
packet_size_bytes payload_size = header_size + payload_size

pub min_packet_size_bytes : ℕ
min_packet_size_bytes = packet_size_bytes 1

-- The masks 0xFF and 0x7F are remainders.
pub channel_lun : ℕ → ℕ
channel_lun channel = channel / 2 ^ 7 % 2 ^ 8

pub channel_sid : ℕ → ℕ
channel_sid channel = channel % 2 ^ 7

-- The two fields share no bit, so `|` is a sum.
pub luncid_channel : ℕ → ℕ → ℕ
luncid_channel lun cid = lun * 2 ^ 7 + cid % 2 ^ 7

abbrev pub bit : Bool → ℕ
bit true = 1
bit false = 0

-- The bytes of an `iccom_package_header` on a little-endian CPU: the length in network order,
-- the LUN, then `cid` in the low seven bits and `complete` in the top one.
pub packet_header : ℕ → ℕ → Bool → List ℕ
packet_header payload_size channel complete =
    be16 payload_size ++ channel_lun channel ∷ (channel_sid channel + bit complete * 2 ^ 7) ∷ []

-- `none` is -EINVAL, with `packet__out` invalidated.
pub packet_parse_into_struct : List ℕ → ℕ → Option Packet
packet_parse_into_struct start max_bytes_available =
    let payload_length = get_or start 0 0 * 256 + get_or start 1 0 in
    if ltb max_bytes_available min_packet_size_bytes
    then none
    else if ltb max_bytes_available (packet_size_bytes payload_length)
    then none
    else some (record {
      payload = take payload_length (drop header_size start);
      payload_length = payload_length;
      channel = luncid_channel (get_or start 2 0) (get_or start 3 0 % 2 ^ 7);
      finalizing = get_or start 3 0 / 2 ^ 7 == 1;
    })

-- The header and the payload written at an address; nothing is written at NULL.
write_packet : List ℕ → Option ℕ → List ℕ → List ℕ → List ℕ
write_packet bytes none header payload = bytes
write_packet bytes (some start) header payload =
    write_at (write_at bytes start header) (start + header_size) payload

-- The part of `iccom_package_add_packet` after the check of the free space: `room` is what the
-- header leaves of it.
add_to_room : Package → List ℕ → ℕ → ℕ → ℕ → ℕ × Package
unfolding write_packet
add_to_room p packet_payload payload_size_bytes channel room =
    let n = if ltb payload_size_bytes room then payload_size_bytes else room in
    let written = record p {
      bytes =
          write_packet p.bytes (free_space_start p).0
            (packet_header n channel (n == payload_size_bytes)) (take n packet_payload);
    } in
    (n, set_payload_size written ((payload_size written).0 + (header_size + n)))

-- Adds as much of the message as fits, and returns how much that was. No caller passes NULL for
-- the package: that is decided where the last package of the queue is looked up.
pub package_add_packet : Package → List ℕ → ℕ → ℕ → ℕ × Package
unfolding add_to_room
package_add_packet p packet_payload payload_size_bytes channel =
    let free = (payload_free_space p).0 in
    if leb free header_size
    then (0, p)
    else add_to_room p packet_payload payload_size_bytes channel (free - header_size)
