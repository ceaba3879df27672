-- ===== src/Libiccom/IccomSocket/RoundTrip.antt =====
-- From the writes to one socket to the reads of another one.
use iccom_utils.Base.{
  ℕ, ◌+◌, ◌%◌, ◌<◌, ◌≡◌, refl, sym, arith, List, [], ◌∷◌, ◌++◌, true, false, some, length,
  get_elem?, All, append_assoc, append-nil, length-append,
}
use iccom_utils.Socket.{max_message_size}
use iccom_utils.Libiccom.{done}
use iccom_utils.Libiccom.Message.{NlmsgFormat, delivered}
use iccom_utils.Libiccom.Message.RoundTrip.{message}
use iccom_utils.Libiccom.IccomSocket.{
  IccomSocket, write_data, send, receive, input_size, input_at, reset_output,
}
use iccom_utils.Libiccom.IccomSocket.Input.{input_lem}
use iccom_utils.Libiccom.IccomSocket.Output.{
  IsOutput, write_data-IsOutput, reset_output-IsOutput, send_lem, receive_lem,
}

-- The vectors that are written in turn.
abbrev pub write_all : NlmsgFormat → IccomSocket → List (List ℕ) → IccomSocket
write_all nl s [] = s
write_all nl s (chunk ∷ chunks) = write_all nl (write_data nl s chunk) chunks

abbrev pub joined : List (List ℕ) → List ℕ
joined [] = []
joined (chunk ∷ chunks) = chunk ++ joined chunks

abbrev pub Aligned : List (List ℕ) → Type 0
Aligned chunks = All (λ (chunk : List ℕ). length chunk % 4 ≡ 0) chunks

-- Chunks of multiples of 4 bytes.
write_all-IsOutput :
    (nl : NlmsgFormat) (s : IccomSocket) (content : List ℕ) (chunks : List (List ℕ))
    → IsOutput nl s content
    → length content % 4 ≡ 0
    → Aligned chunks
    → length content + length (joined chunks) < max_message_size
    → IsOutput nl (write_all nl s chunks) (content ++ joined chunks)
      × (length (content ++ joined chunks) % 4 ≡ 0)
write_all-IsOutput nl s content [] o even all room = rw (append-nil content) (o, even)
write_all-IsOutput nl s content (chunk ∷ chunks) o even (good, all) room =
    let size : length (content ++ chunk) ≡ length content + length chunk =
      length-append content chunk in
    let more : length (chunk ++ joined chunks) ≡ length chunk + length (joined chunks) =
      length-append chunk (joined chunks) in
    rw (sym (append_assoc content chunk (joined chunks))) (
      write_all-IsOutput nl (write_data nl s chunk) (content ++ chunk) chunks
        (write_data-IsOutput nl s content chunk o even (omega arith)) (omega arith) all
        (omega arith))

-- The output of a socket is reset, vectors of multiples of 4 bytes are written to it and then one
-- more vector, all together at least 1 and less than 4096 bytes. Then sending, which the system
-- accepts, succeeds and resets the output, and where another socket receives the whole message, it
-- returns the number of bytes and has an input of this size; at each index below it there is the
-- byte that was written there, and at every other index the assertion fails.
pub receive-write :
    (nl : NlmsgFormat) (s r : IccomSocket) (chunks : List (List ℕ)) (last : List ℕ) (n : ℕ)
    → Aligned chunks
    → 0 < length (joined chunks ++ last)
    → length (joined chunks ++ last) < max_message_size
    → let content : List ℕ = joined chunks ++ last in
      let written : IccomSocket = write_data nl (write_all nl (reset_output nl s) chunks) last in
      (s' : IccomSocket) × (msg : List ℕ) × (r' : IccomSocket) × (send nl written true (done n)
        ≡ (done 0, s', some msg))
      × IsOutput nl s' []
      × (receive nl r (delivered (length msg) msg false false false) ≡ (done (length content), r'))
      × (input_size nl r' ≡ length content)
      × ((idx : ℕ) → input_at nl r' idx ≡ get_elem? content idx)
receive-write nl s r chunks last n all some_bytes few =
    let content : List ℕ = joined chunks ++ last in
    let size : length content ≡ length (joined chunks) + length last =
      length-append (joined chunks) last in
    let (o, even) =
      write_all-IsOutput nl (reset_output nl s) [] chunks (reset_output-IsOutput nl s) refl all
        (omega arith) in
    let o' =
      write_data-IsOutput nl (write_all nl (reset_output nl s) chunks) (joined chunks) last o even
        (omega arith) in
    let written = write_data nl (write_all nl (reset_output nl s) chunks) last in
    let (s', sending, reset) = send_lem nl written content n o' some_bytes in
    let r' = record r { incoming_data = message nl content } in
    let (counted, indexed) = input_lem nl r' content (omega arith) refl in
    (
      s',
      message nl content,
      r',
      sending,
      reset,
      receive_lem nl r content some_bytes (omega arith),
      counted,
      indexed,
    )
