-- ===== src/Packet/Codec.antt =====
-- Parsing a packet gives back what its header was written from.
use iccom_utils.Base.{ℕ, ◌+◌, ◌*◌, ◌/◌, ◌%◌, ◌^◌, ◌≤◌, ◌<◌, ◌≡◌, refl, arith}
use iccom_utils.Base.{List, ◌∷◌, ◌++◌, Bool, true, false, some, length, take}
use iccom_utils.Base.{◌==◌, take-append_length}
use iccom_utils.Packet.{Packet, packet_header, packet_parse_into_struct, channel_lun}
use iccom_utils.Packet.{channel_sid, luncid_channel, bit, packet_size_bytes, min_packet_size_bytes}

-- The bytes of a packet in a package.
abbrev pub encode : List ℕ → ℕ → Bool → List ℕ
encode payload channel complete = packet_header (length payload) channel complete ++ payload

-- LUN and CID keep the 15 low bits of a channel number.
pub luncid-lun-sid :
    (channel : ℕ) → luncid_channel (channel_lun channel) (channel_sid channel) ≡ channel % 2 ^ 15
unfolding luncid_channel channel_lun channel_sid
luncid-lun-sid channel = omega arith

complete_bit : (sid : ℕ) (b : Bool) → sid < 128 → ((sid + bit b * 2 ^ 7) / 2 ^ 7 == 1) ≡ b
complete_bit sid true h = ground arith
complete_bit sid false h = ground arith

cid_bits : (sid : ℕ) (b : Bool) → sid < 128 → (sid + bit b * 2 ^ 7) % 2 ^ 7 ≡ sid
cid_bits sid true h = omega arith
cid_bits sid false h = omega arith

-- The packet that a receiver sees.
abbrev pub packet_of : List ℕ → ℕ → Bool → Packet
packet_of payload channel complete = record {
  payload = payload;
  payload_length = length payload;
  channel = channel % 2 ^ 15;
  finalizing = complete;
}

channel_sid-lt : (channel : ℕ) → channel_sid channel < 128
unfolding channel_sid
channel_sid-lt channel = omega arith

-- A parse in terms of the header's bytes.
parse_header :
    (hi lo lun cid : ℕ) (xs : List ℕ) (n max : ℕ)
    → hi * 256 + lo ≡ n
    → 0 < n
    → n + 4 ≤ max
    → packet_parse_into_struct (hi ∷ lo ∷ lun ∷ cid ∷ xs) max
      ≡ some (record {
        payload = take n xs;
        payload_length = n;
        channel = luncid_channel lun (cid % 2 ^ 7);
        finalizing = cid / 2 ^ 7 == 1;
      })
unfolding packet_parse_into_struct packet_size_bytes min_packet_size_bytes
parse_header hi lo lun cid xs n max e pos room = rw e (ground arith)

-- A written packet with a payload of 1 to 65535 bytes parses to its payload, its flag and the 15
-- low bits of its channel, whatever follows it, if at least its size is available.
pub parse-encode :
    (payload rest : List ℕ) (channel : ℕ) (complete : Bool) (max : ℕ)
    → 0 < length payload
    → length payload < 2 ^ 16
    → length payload + 4 ≤ max
    → packet_parse_into_struct (encode payload channel complete ++ rest) max
      ≡ some (packet_of payload channel complete)
unfolding packet_header
parse-encode payload rest channel complete max pos small room =
    rw
      (
        parse_header (n % 2 ^ 16 / 256) (n % 256) (channel_lun channel)
            (channel_sid channel + bit complete * 2 ^ 7) (payload ++ rest) n max (omega arith) pos
            (omega arith),
        complete_bit (channel_sid channel) complete (channel_sid-lt channel),
        cid_bits (channel_sid channel) complete (channel_sid-lt channel),
        luncid-lun-sid channel,
        take-append_length payload rest n refl,
      )
      refl
  where
    n : ℕ
    n = length payload
