-- ===== src/Packet/Identity.antt =====
-- Adding a packet does not change the ID of the package.
use iccom_utils.Base.{ℕ, ◌+◌, ◌-◌, ◌≡◌, ◌≤◌, ◌∙◌, refl, arith, ◌⊎◌, List, Option, none, some, take}
use iccom_utils.Base.{Bool-cases, inl, inr, leb, ltb, if◌then◌else◌, ◌==◌, write_at}
use iccom_utils.Package.{Package, payload_free_space, payload_size, free_space_start}
use iccom_utils.Package.Identity.{
  IsRaw, Keeps, write_at-Keeps, set_payload_size-Keeps, free_space_start-far,
}
use iccom_utils.Packet.{package_add_packet, add_to_room, write_packet, packet_header, header_size}

write_packet-Keeps :
    (p : Package) (start : Option ℕ) (header payload : List ℕ)
    → (start ≡ none) ⊎ ((k : ℕ) × (start ≡ some k) × (3 ≤ k))
    → IsRaw p
    → Keeps p (record p { bytes = write_packet p.bytes start header payload })
unfolding write_packet
write_packet-Keeps p start header payload (inl e) raw = rw e (refl, raw)
write_packet-Keeps p start header payload (inr (k, e, far)) raw =
    let (same, raw') = write_at-Keeps p k header far raw in
    let (same', raw'') =
      write_at-Keeps (record p { bytes = write_at p.bytes k header }) (k + header_size) payload
        (omega arith) raw' in
    rw e (same' ∙ same, raw'')

add_to_room-Keeps :
    (p : Package) (content : List ℕ) (n channel room : ℕ)
    → IsRaw p
    → Keeps p (add_to_room p content n channel room).1
unfolding add_to_room
add_to_room-Keeps p content n channel room raw =
    let k = if ltb n room then n else room in
    let header = packet_header k channel (k == n) in
    let written : Package = record p {
      bytes = write_packet p.bytes (free_space_start p).0 header (take k content);
    } in
    let (same, raw') =
      write_packet-Keeps p (free_space_start p).0 header (take k content)
        (free_space_start-far p raw) raw in
    let (same', raw'') =
      set_payload_size-Keeps written ((payload_size written).0 + (header_size + k)) raw' in
    (same' ∙ same, raw'')

pub package_add_packet-Keeps :
    (p : Package) (content : List ℕ) (n channel : ℕ)
    → IsRaw p
    → Keeps p (package_add_packet p content n channel).1
unfolding package_add_packet
package_add_packet-Keeps p content n channel raw =
    elim (Bool-cases (leb (payload_free_space p).0 header_size)) [
      | inl full ↦ rw full (refl, raw)
      | inr room ↦
          rw room
            (add_to_room-Keeps p content n channel ((payload_free_space p).0 - header_size) raw)
    ]
