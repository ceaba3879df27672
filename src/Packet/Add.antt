-- ===== src/Packet/Add.antt =====
-- Adding a packet to a package: how much of the message is taken, and that the payload grows by
-- exactly the encoded packet.
use iccom_utils.Base.{ℕ, ◌+◌, ◌-◌, ◌≤◌, ◌<◌, ◌≡◌, refl, arith, min, sym}
use iccom_utils.Base.{List, ◌++◌, Bool, some, length, take, drop, subst}
use iccom_utils.Base.{◌==◌, ltb, length-take, length-drop, take-append-drop, length-append}
use iccom_utils.Base.{append_assoc, le→leb, gt→leb, if◌then◌else◌, write_at-write_at}
use iccom_utils.Package.Layout.{Fits, pkg, payload_free_space-pkg, free_space_start-pkg}
use iccom_utils.Package.Layout.{payload_size-pkg, write_at-pkg, set_payload_size-pkg}
use iccom_utils.Packet.{packet_header, header_size, package_add_packet, add_to_room, write_packet}
use iccom_utils.Packet.Codec.{encode}

-- How much of `n` bytes goes into a packet, if `free` bytes are free.
abbrev pub taken : ℕ → ℕ → ℕ
taken free n = min n (free - header_size)

-- What is in the package after the packet.
abbrev pub extended : List ℕ → List ℕ → ℕ → ℕ → ℕ → List ℕ
extended c msg n free channel = c ++ encode (take (taken free n) msg) channel (taken free n == n)

length-packet_header : (n channel : ℕ) (b : Bool) → length (packet_header n channel b) ≡ 4
unfolding packet_header
length-packet_header n channel b = refl

-- Without room for a header and a byte, nothing is taken and the package stays as it is.
pub add_packet-pkg_full :
    (owns : Bool) (id : ℕ) {size : ℕ} {c f k : List ℕ} (msg : List ℕ) (n channel : ℕ)
    → Fits size c f k
    → length f ≤ 4
    → package_add_packet (pkg size owns id c f k) msg n channel ≡ (0, pkg size owns id c f k)
unfolding package_add_packet
add_packet-pkg_full owns id {f = f} msg n channel fits h =
    rw (payload_free_space-pkg owns id fits, le→leb (length f) 4 h) refl

length-taken :
    (msg : List ℕ) (n free : ℕ) → length msg ≡ n → length (take (taken free n) msg) ≡ taken free n
length-taken msg n free len = omega (arith, length-take (taken free n) msg)

pub length-encode :
    (payload : List ℕ) (channel : ℕ) (b : Bool)
    → length (encode payload channel b) ≡ 4 + length payload
unfolding packet_header
length-encode payload channel b = omega arith

pub Fits-extended :
    {size : ℕ} {c f k : List ℕ} (msg : List ℕ) (n channel : ℕ)
    → Fits size c f k
    → 4 < length f
    → length msg ≡ n
    → Fits size (extended c msg n (length f) channel) (drop (4 + taken (length f) n) f) k
Fits-extended {c = c} {f = f} msg n channel fits room len =
    let t = taken (length f) n in
    let e = encode (take t msg) channel (t == n) in
    record {
      sizes = omega (
        arith,
        length-append c e,
        length-encode (take t msg) channel (t == n),
        length-taken msg n (length f) len,
        length-drop (4 + t) f,
      );
      crc = fits.crc;
      small = fits.small;
    }

ltb-min : (n r : ℕ) → (if ltb n r then n else r) ≡ min n r
ltb-min n r = ground arith

write_packet-pkg :
    (owns : Bool) (id : ℕ) {size : ℕ} {c f k : List ℕ} (fits : Fits size c f k) (payload : List ℕ)
    (t channel : ℕ) (b : Bool)
    → length payload ≡ t
    → 4 + t ≤ length f
    → write_packet
        (pkg size owns id c f k).bytes
        (some (length c + 3))
        (packet_header t channel b)
        payload
      ≡ (pkg size owns id c ((packet_header t channel b ++ payload) ++ drop (4 + t) f) k).bytes
unfolding write_packet
write_packet-pkg owns id {size} {c} {f} {k} fits payload t channel b len room =
    let e = packet_header t channel b ++ payload in
    let fit : length e ≡ length (take (4 + t) f) = omega (
      arith,
      length-append (packet_header t channel b) payload,
      length-packet_header t channel b,
      length-take (4 + t) f,
    ) in
    rw
      (
        write_at-write_at (pkg size owns id c f k).bytes (packet_header t channel b) payload
            (length c + 3) (length c + 3 + 4) (omega (arith, length-packet_header t channel b)),
        append_assoc e (drop (4 + t) f) k,
      )
      (write_at-pkg owns id fits e (take (4 + t) f) (drop (4 + t) f)
        (sym (take-append-drop (4 + t) f)) fit)

Fits-written :
    {size : ℕ} {c f k : List ℕ} (fits : Fits size c f k) (e : List ℕ) (t : ℕ)
    → length e ≡ 4 + t
    → 4 + t ≤ length f
    → Fits size c (e ++ drop (4 + t) f) k
Fits-written {f = f} fits e t len room = record {
  sizes = omega (arith, length-append e (drop (4 + t) f), length-drop (4 + t) f);
  crc = fits.crc;
  small = fits.small;
}

add_to_room-pkg :
    (owns : Bool) (id : ℕ) {size : ℕ} {c f k : List ℕ} (msg : List ℕ) (n channel : ℕ)
    → Fits size c f k
    → 4 < length f
    → length msg ≡ n
    → add_to_room (pkg size owns id c f k) msg n channel (length f - 4) ≡ (
      taken (length f) n,
      pkg size owns id (extended c msg n (length f) channel) (drop (4 + taken (length f) n) f) k,
    )
unfolding add_to_room
add_to_room-pkg owns id {size} {c} {f} {k} msg n channel fits room len =
    let t : ℕ = taken (length f) n in
    let b : Bool = t == n in
    let e : List ℕ = packet_header t channel b ++ take t msg in
    let fit : length (take t msg) ≡ t = length-taken msg n (length f) len in
    let e_length : length e ≡ 4 + t = omega (
      arith,
      length-append (packet_header t channel b) (take t msg),
      length-packet_header t channel b,
    ) in
    rw
      (
        ltb-min n (length f - 4),
        free_space_start-pkg owns id fits (omega arith),
        write_packet-pkg owns id fits (take t msg) t channel b fit (omega arith),
        payload_size-pkg owns id (Fits-written fits e t e_length (omega arith)),
        set_payload_size-pkg owns id size c k e (drop (4 + t) f) (length c + (4 + t))
            (omega (arith, length-append c e)),
        fit,
      )
      refl

-- If a well-formed package has more than 4 free bytes, adding a packet takes as much of the
-- message as fits behind the header and appends exactly the encoded packet to the payload. The
-- packet is marked complete if it takes the whole message.
pub add_packet-pkg :
    (owns : Bool) (id : ℕ) {size : ℕ} {c f k : List ℕ} (msg : List ℕ) (n channel : ℕ)
    → Fits size c f k
    → 4 < length f
    → length msg ≡ n
    → package_add_packet (pkg size owns id c f k) msg n channel ≡ (
      taken (length f) n,
      pkg size owns id (extended c msg n (length f) channel) (drop (4 + taken (length f) n) f) k,
    )
unfolding package_add_packet
add_packet-pkg owns id {size} {c} {f} {k} msg n channel fits room len =
    rw (payload_free_space-pkg owns id fits, gt→leb (length f) 4 room)
      (add_to_room-pkg owns id msg n channel fits room len)

-- With room for a header and a byte, some of the message is taken, whatever it holds.
pub add_packet-pkg_some :
    (owns : Bool) (id : ℕ) {size : ℕ} {c f k : List ℕ} (msg : List ℕ) (n channel : ℕ)
    → Fits size c f k
    → 4 < length f
    → 0 < n
    → 0 < (package_add_packet (pkg size owns id c f k) msg n channel).0
unfolding package_add_packet add_to_room
add_packet-pkg_some owns id {f = f} msg n channel fits room pos =
    rw (payload_free_space-pkg owns id fits, gt→leb (length f) 4 room)
      (subst (λ (t : ℕ). 0 < t) (sym (ltb-min n (length f - 4))) (omega arith))
