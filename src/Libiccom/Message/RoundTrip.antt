-- ===== src/Libiccom/Message/RoundTrip.antt =====
-- What is sent is received.
use iccom_utils.Base.{
  ℕ, ◌+◌, ◌≤◌, ◌<◌, ◌≡◌, ◌⊎◌, inl, inr, refl, sym, arith, List, ◌++◌, true, false, Option, none,
  some, ◌==◌, leb, ltb, length, take, drop,
}
use iccom_utils.Base.{
  append_assoc, length-append, length-take, length-drop, drop-append_length, take-append_length,
  take_all,
}
use iccom_utils.Kernel.{Memory, kmalloc, kmalloc-cases}
use iccom_utils.Int32
use iccom_utils.Socket.{max_message_size}
use iccom_utils.Libiccom.{IntResult, done, failed, errno_enomem}
use iccom_utils.Libiccom.Message.{
  NlmsgFormat, framed, nlmsg_length, send_framed, sent_as, send_data, send_data_nocopy, send_copy,
  send_some, delivered, unpack, moved, receive_data_nocopy, receive_data_pure,
}

-- The message for a content.
abbrev pub message : NlmsgFormat → List ℕ → List ℕ
message nl content = nl.header (nlmsg_length nl (length content)) ++ content

pub length-message :
    (nl : NlmsgFormat) (content : List ℕ)
    → length (message nl content) ≡ nlmsg_length nl (length content)
length-message nl content = omega (
  arith,
  length-append (nl.header (nlmsg_length nl (length content))) content,
  nl.length-header (nlmsg_length nl (length content)),
)

sent_as-status :
    (bytes : List ℕ) (answer : IntResult)
    → ((sent_as bytes answer).0 ≡ done 0) ⊎ ((sent_as bytes answer).0 ≡ answer)
unfolding sent_as
sent_as-status bytes (done n) = inl refl
sent_as-status bytes (failed e) = inr refl

-- A buffer of the size for its data is given to the system, and keeps its size.
pub send_data_nocopy-sized :
    (nl : NlmsgFormat) (buf : List ℕ) (n : ℕ) (answer : IntResult)
    → length buf ≡ nl.space n
    → 0 < n
    → n ≤ max_message_size
    → (status : IntResult) × (buf' : List ℕ) × (sent : Option (List ℕ)) × (send_data_nocopy nl
          (some buf)
          (length buf)
          (nlmsg_length nl 0)
          n
          answer
        ≡ (status, some buf', sent))
      × (length buf' ≡ nl.space n)
      × ((status ≡ done 0) ⊎ (status ≡ answer))
unfolding send_data_nocopy send_framed
send_data_nocopy-sized nl buf n answer size some_bytes few =
    let same : (length buf == nl.space n) ≡ true = ground arith in
    let same' : (nlmsg_length nl 0 == nlmsg_length nl 0) ≡ true = ground arith in
    let small : ltb max_message_size n ≡ false = ground arith in
    let filled : (n == 0) ≡ false = ground arith in
    let buf' : List ℕ = framed nl buf n in
    let (status, sent) = sent_as (take (nlmsg_length nl n) buf') answer in
    (
      status,
      buf',
      sent,
      rw (same, same', small, filled) refl,
      omega (
        arith,
        length-append (nl.header (nlmsg_length nl n)) (drop nl.header_size buf),
        length-drop nl.header_size buf,
        nl.length-header (nlmsg_length nl n),
        nl.space_lem n few,
      ),
      sent_as-status (take (nlmsg_length nl n) buf') answer,
    )

-- A buffer with room for the header, a content of 1 to 4096 bytes, and padding.
pub send_data_nocopy_lem :
    (nl : NlmsgFormat) (head content pad : List ℕ) (n : ℕ)
    → length head ≡ nl.header_size
    → 0 < length content
    → length content ≤ max_message_size
    → send_data_nocopy nl
        (some (head ++ (content ++ pad)))
        (nl.space (length content))
        (nlmsg_length nl 0)
        (length content)
        (done n)
      ≡ (done 0, some (message nl content ++ pad), some (message nl content))
unfolding send_data_nocopy send_framed sent_as
send_data_nocopy_lem nl head content pad n room some_bytes few =
    let whole : List ℕ = message nl content in
    let same : (nl.space (length content) == nl.space (length content)) ≡ true = ground arith in
    let same' : (nlmsg_length nl 0 == nlmsg_length nl 0) ≡ true = ground arith in
    let small : ltb max_message_size (length content) ≡ false = ground arith in
    let filled : (length content == 0) ≡ false = ground arith in
    rw
      (
        same,
        same',
        small,
        filled,
        drop-append_length head (content ++ pad) nl.header_size (sym room),
        sym (append_assoc (nl.header (nlmsg_length nl (length content))) content pad),
        take-append_length whole pad (nlmsg_length nl (length content))
            (sym (length-message nl content)),
      )
      refl

-- A content of 1 to 4096 bytes whose buffer is allocated.
send_copy_lem :
    (nl : NlmsgFormat) (content area : List ℕ) (n : ℕ)
    → 0 < length content
    → length content ≤ max_message_size
    → nl.header_size ≤ length area
    → send_copy nl content (length content) (some area) (done n)
      ≡ (done 0, some (message nl content))
unfolding send_copy
send_copy_lem nl content area n some_bytes few room =
    rw
      (
        take_all content (length content) refl,
        send_data_nocopy_lem nl (take nl.header_size area) content
            (drop (nl.header_size + length content) area) n
            (omega (arith, length-take nl.header_size area)) some_bytes few,
      )
      refl

-- The whole message, delivered to a buffer that has room for it.
pub receive_data_nocopy_lem :
    (nl : NlmsgFormat) (content buffer : List ℕ) (buffer_size : ℕ)
    → 0 < length content
    → length content ≤ max_message_size
    → nl.header_size < buffer_size
    → let msg : List ℕ = message nl content in
      receive_data_nocopy nl buffer buffer_size true (delivered (length msg) msg false false false)
      ≡ (done (length content), msg ++ drop (length msg) buffer, some (nlmsg_length nl 0))
unfolding receive_data_nocopy unpack
receive_data_nocopy_lem nl content buffer buffer_size some_bytes few room =
    let n : ℕ = length content in
    let msg : List ℕ = message nl content in
    let head : List ℕ = nl.header (nlmsg_length nl n) in
    let behind : List ℕ = drop (length msg) buffer in
    let size : length msg ≡ nlmsg_length nl n = length-message nl content in
    let low : nl.header_size ≤ 64 = nl.header_fits in
    let whole : msg ++ behind ≡ head ++ (content ++ behind) = append_assoc head content behind in
    let wide : leb buffer_size (nl.space 0) ≡ false =
      ground (arith, nl.space_lem 0 (omega arith)) in
    let filled : (length msg == 0) ≡ false = ground arith in
    let good : nl.nlmsg_ok (msg ++ behind) (length msg) ≡ true = rw whole (
      nl.nlmsg_ok-header (nlmsg_length nl n) (length msg) (content ++ behind) (omega arith)
        (omega arith) (omega arith)) in
    let declared : nl.nlmsg_len (msg ++ behind) ≡ nlmsg_length nl n =
      rw whole (nl.nlmsg_len-header (nlmsg_length nl n) (content ++ behind) (omega arith)) in
    let left : Int32.sub (nlmsg_length nl n) (nl.space 0) ≡ n =
      omega (arith, nl.space_lem 0 (omega arith)) in
    rw (wide, filled, good, declared, left) refl

-- The same with the content moved to the start.
receive_message :
    (nl : NlmsgFormat) (content buffer : List ℕ)
    → 0 < length content
    → length content ≤ max_message_size
    → nl.header_size + length content ≤ length buffer
    → let msg : List ℕ = message nl content in
      receive_data_pure nl buffer (length buffer) (delivered (length msg) msg false false false)
      ≡ (done (length content), content ++ drop (length content) (msg ++ drop (length msg) buffer))
unfolding receive_data_pure moved
receive_message nl content buffer some_bytes few room =
    let n : ℕ = length content in
    let msg : List ℕ = message nl content in
    let head : List ℕ = nl.header (nlmsg_length nl n) in
    let behind : List ℕ = drop (length msg) buffer in
    let positive : Int32.less_equal n 0 ≡ false = ground arith in
    let start : drop (nlmsg_length nl 0) (msg ++ behind) ≡ content ++ behind =
      rw (append_assoc head content behind) (
        drop-append_length head (content ++ behind) (nlmsg_length nl 0)
          (omega (arith, nl.length-header (nlmsg_length nl n)))) in
    rw
      (
        receive_data_nocopy_lem nl content buffer (length buffer) some_bytes few (omega arith),
        positive,
        start,
        take-append_length content behind n refl,
      )
      refl

-- A content of 1 to 4096 bytes, and a buffer with room for it and the header. Either the memory
-- for the copy is missing, which is returned, or the system, which accepts the message, gets it
-- and 0 is returned, and where the other end gets the whole message, it returns the number of
-- bytes and has the content at the start of its buffer.
pub receive-send :
    (nl : NlmsgFormat) (content buffer : List ℕ) (m : Memory) (n : ℕ)
    → 0 < length content
    → length content ≤ max_message_size
    → nl.header_size + length content ≤ length buffer
    → (((kmalloc (nl.space (length content)) m).0 ≡ none)
        × (send_data nl (some content) (length content) m (done n) ≡ (failed errno_enomem, none)))
      ⊎ ((msg : List ℕ) × (rest : List ℕ) × (send_data nl (some content) (length content) m (done n)
            ≡ (done 0, some msg))
          × (receive_data_pure nl buffer
                (length buffer)
                (delivered (length msg) msg false false false)
              ≡ (done (length content), content ++ rest)))
unfolding send_data send_some send_copy sent_as
receive-send nl content buffer m n some_bytes few room =
    let small : ltb max_message_size (length content) ≡ false = ground arith in
    let filled : (length content == 0) ≡ false = ground arith in
    elim (kmalloc-cases (nl.space (length content)) m) [
      | inl missing ↦ inl (missing, rw (small, filled, missing) refl)
      | inr (area, given, size) ↦ inr (
        message nl content,
        drop (length content) (message nl content ++ drop (length (message nl content)) buffer),
        rw (small, filled, given)
            (send_copy_lem nl content area n some_bytes few
              (omega (arith, nl.space_lem (length content) few))),
        receive_message nl content buffer some_bytes few room,
      )
    ]
