-- ===== src/Device/Receive/Continue.antt =====
-- The rest of a message arrives in one package: the loop over its packets.
use iccom_utils.Base.{
  ℕ, zero, suc, ◌+◌, ◌-◌, ◌%◌, ◌^◌, ◌<◌, ◌≤◌, ◌≡◌, ◌≢◌, refl, arith, ap, ap₂, ◌∙◌, sym,
}
use iccom_utils.Base.{
  List, [], ◌∷◌, ◌++◌, Bool, true, false, Option, some, length, drop, append_assoc,
}
use iccom_utils.Base.{==_ne, length-append, length-take, take_all, drop-append_length}
use iccom_utils.Packet.{packet_size_bytes}
use iccom_utils.Packet.Codec.{encode, parse-encode}
use iccom_utils.Packet.Add.{length-encode}
use iccom_utils.Packet.Message.{Carries, whole, part}
use iccom_utils.Storage.{Message, Channel, Storage, find_channel}
use iccom_utils.Storage.Query.Last.{IsFresh, get_last_unfinalized-last}
use iccom_utils.Storage.Update.{extend}
use iccom_utils.Storage.Update.Append.{append_data-last}
use iccom_utils.Storage.Commit.Transaction.{bytes_of}
use iccom_utils.Device.Receive.{
  Parsed, ended, read, parse_loop, read_next_packet, read_packet, read_result, count_result,
  store_packet, store_to, target_message, target_of,
}

-- A channel whose last message `m` is unfinished, and has an ID of its own.
pub record IsOpen (s : Storage) (channel : ℕ) (c : Channel) (before : List Message) (m : Message)
    : Type 0 where
  pub found : find_channel s channel ≡ some c
  pub shape : c.messages ≡ before ++ m ∷ []
  pub fresh : IsFresh m.id before
  pub unfinished : m.finalized ≡ false
  pub placed : m.channel ≡ channel
  pub allocated : m.length ≤ length m.content

-- The channel with another last message.
abbrev pub with_last : Channel → List Message → Message → Channel
with_last c before m = record c { messages = before ++ m ∷ [] }

module _ (channel j : ℕ) (small : channel < 2 ^ 15) (ne : j ≢ channel) where
  -- One packet goes to the end of the open message.
  read_next_packet-open :
      (s : Storage) (c : Channel) (before : List Message) (m : Message)
      → IsOpen s channel c before m
      → (payload rest : List ℕ) (complete : Bool) (max bytes : ℕ) → 0 < length payload
      → length payload < 2 ^ 16
      → length payload + 4 ≤ max
      → (s' : Storage) × (read_next_packet s (encode payload channel complete ++ rest) max bytes []
          ≡ (read (4 + length payload), length payload, s', []))
        × (find_channel s' channel
            ≡ some (with_last c before (extend payload (length payload) complete m)))
        × (find_channel s' j ≡ find_channel s j)
  unfolding read_next_packet read_packet store_packet store_to target_message target_of read_result
      count_result packet_size_bytes
  read_next_packet-open s c before m o payload rest complete max bytes pos short room =
      let (s', e, found', other, _) =
        append_data-last s c before m j channel payload (length payload) complete o.found o.shape
          o.fresh o.unfinished ne in
      let kept : channel % 2 ^ 15 ≡ channel = omega arith in
      (
        s',
        rw
            (
              ==_ne max 0 (omega arith),
              parse-encode payload rest channel complete max pos short room,
              kept,
              get_last_unfinalized-last s channel c before m o.found o.shape o.unfinished,
              o.placed,
              e,
            )
            refl,
        found',
        other,
      )

  -- One round of the loop.
  parse_loop-step :
      (fuel : ℕ) (s s' : Storage) (start : List ℕ) (left done bytes bytes' n : ℕ)
      → left ≢ 0
      → n ≢ 0
      → read_next_packet s start left bytes [] ≡ (read n, bytes', s', [])
      → parse_loop (suc fuel) s start left done bytes []
        ≡ parse_loop fuel s' (drop n start) (left - n) (done + 1) bytes' []
  unfolding parse_loop
  parse_loop-step fuel s s' start left done bytes bytes' n some_left some_read e =
      rw (e, ==_ne left 0 some_left, ==_ne n 0 some_read) refl

  -- The loop ends where nothing is left.
  parse_loop-done :
      (fuel : ℕ) (s : Storage) (start : List ℕ) (left done bytes : ℕ)
      → 0 < fuel
      → left ≡ 0
      → parse_loop fuel s start left done bytes [] ≡ some (ended true done bytes s [])
  unfolding parse_loop
  parse_loop-done zero s start left done bytes h e = absurd (omega arith)
  parse_loop-done (suc fuel) s start left done bytes h e = rw e refl

  -- An extended message that is not finished is open again, and its bytes are the old ones and then
  -- the new ones.
  bytes_of-extend :
      (m : Message) (payload : List ℕ) (complete : Bool)
      → m.length ≤ length m.content
      → (bytes_of (extend payload (length payload) complete m) ≡ bytes_of m ++ payload)
        × (m.length + length payload ≤ length (extend payload (length payload) complete m).content)
  unfolding extend
  bytes_of-extend m payload complete h =
      let old : length (bytes_of m) ≡ m.length = omega (arith, length-take m.length m.content, h) in
      rw (take_all payload (length payload) refl) (
        take_all (bytes_of m ++ payload) (m.length + length payload)
            (omega (arith, old, length-append (bytes_of m) payload)),
        omega (arith, old, length-append (bytes_of m) payload),
      )

  -- How the loop ends that completes the message `m` by `msg`.
  abbrev Completed : Storage → Channel → List Message → Message → List ℕ → Option Parsed → Type 0
  Completed s c before m msg r =
      (p : Parsed) × (m' : Message) × (r ≡ some p)
      × (p.success ≡ true)
      × (find_channel p.storage channel ≡ some (with_last c before m'))
      × (bytes_of m' ≡ bytes_of m ++ msg)
      × (m'.finalized ≡ true)
      × (m'.id ≡ m.id)
      × (find_channel p.storage j ≡ find_channel s j)

  pub parse_loop-Carries :
      (fuel : ℕ) (msg bytes tail : List ℕ)
      → Carries channel msg bytes
      → (s : Storage) (c : Channel) (before : List Message) (m : Message)
      → IsOpen s channel c before m
      → (done count : ℕ) → length bytes < fuel
      → Completed s c before m msg (parse_loop fuel s (bytes ++ tail) (length bytes) done count [])
  unfolding extend ended
  parse_loop-Carries zero msg bytes tail carries s c before m o done count h = absurd (omega arith)
  parse_loop-Carries (suc fuel) msg bytes tail (whole payload pos short) s c before m o done count
        h =
      let size = length-encode payload channel true in
      let (s', e, found', other) =
        read_next_packet-open s c before m o payload tail true (length bytes) count pos short
          (omega (arith, size)) in
      let (grown, _) = bytes_of-extend m payload true o.allocated in
      (
        ended true (done + 1) (length payload) s' [],
        extend payload (length payload) true m,
        parse_loop-step fuel s s' (bytes ++ tail) (length bytes) done count (length payload)
              (4 + length payload) (omega (arith, size)) (omega arith) e
            ∙ parse_loop-done fuel s' _ _ (done + 1) (length payload) (omega (arith, h, size))
                (omega (arith, size)),
        refl,
        found',
        grown,
        refl,
        refl,
        other,
      )
  parse_loop-Carries (suc fuel) msg bytes tail
        (part payload {rest = rest} {bytes = behind} pos short carries) s c before m o done count
        h =
      let e0 = encode payload channel false in
      let size = length-encode payload channel false in
      let total = length-append e0 behind in
      let (s', e, found', other) =
        read_next_packet-open s c before m o payload (behind ++ tail) false (length bytes) count pos
          short (omega (arith, size, total)) in
      let (grown, room) = bytes_of-extend m payload false o.allocated in
      let next : IsOpen s' channel (with_last c before (extend payload (length payload) false m))
          before (extend payload (length payload) false m) =
        record {
          found = found';
          shape = refl;
          fresh = o.fresh;
          unfinished = o.unfinished;
          placed = o.placed;
          allocated = room;
        } in
      let (p, m', ends, good, found'', grown', finished, same, other') =
        parse_loop-Carries fuel rest behind tail carries s' _ before _ next (done + 1)
          (length payload) (omega (arith, h, size, total)) in
      (
        p,
        m',
        ap (λ (xs : List ℕ). parse_loop (suc fuel) s xs (length bytes) done count [])
              (append_assoc e0 behind tail)
            ∙ parse_loop-step fuel s s' (e0 ++ (behind ++ tail)) (length bytes) done count
                (length payload) (4 + length payload) (omega (arith, size, total)) (omega arith) e
            ∙ ap₂ (λ (xs : List ℕ) (n : ℕ). parse_loop fuel s' xs n (done + 1) (length payload) [])
                (drop-append_length e0 (behind ++ tail) (4 + length payload) (sym size))
                (omega (arith, size, total))
            ∙ ends,
        good,
        found'',
        grown' ∙ ap (λ (xs : List ℕ). xs ++ rest) grown ∙ append_assoc (bytes_of m) payload rest,
        finished,
        same,
        other' ∙ other,
      )
