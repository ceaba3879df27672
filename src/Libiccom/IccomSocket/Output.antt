-- ===== src/Libiccom/IccomSocket/Output.antt =====
-- The outgoing message: what the writes build, and what the other end reads of it.
use iccom_utils.Base.{
  ℕ, zero, suc, ◌+◌, ◌-◌, ◌%◌, ◌≤◌, ◌<◌, ◌≡◌, ◌≢◌, refl, ap, sym, ◌∙◌, arith, List, [], ◌∷◌, ◌++◌,
  true, false, some, ◌==◌, leb, length, take, drop, replicate,
}
use iccom_utils.Base.{append_assoc, append-nil, length-append, take-append_length}
use iccom_utils.Kernel.{fit, length-fit}
use iccom_utils.Int32
use iccom_utils.Socket.{max_message_size}
use iccom_utils.Libiccom.{done}
use iccom_utils.Libiccom.Message.{NlmsgFormat, nlmsg_length, delivered}
use iccom_utils.Libiccom.Message.RoundTrip.{
  message, length-message, send_data_nocopy_lem, receive_data_nocopy_lem,
}
use iccom_utils.Libiccom.IccomSocket.{
  IccomSocket, write_char, write_data, send, receive, reset_output, after_send, after_receive,
}

-- The buffer holds room for a header, the content and the padding.
pub record IsOutput (nl : NlmsgFormat) (s : IccomSocket) (content : List ℕ) : Type 0 where
  pub head : List ℕ
  pub pad : List ℕ
  pub size : s.outgoing_payload_size ≡ length content
  pub low : length content ≤ max_message_size
  pub length-head : length head ≡ nl.header_size
  pub layout : s.outgoing_data ≡ head ++ (content ++ pad)
  pub total : length s.outgoing_data ≡ nl.space (length content)

-- Where the buffer of the output has its size with padding, the size of the output is not a
-- multiple of 4 and below 4096, a character that is written is lost: the buffer stays as it is,
-- and only the size of the output grows.
pub write_char-lost :
    (nl : NlmsgFormat) (s : IccomSocket) (ch : ℕ)
    → length s.outgoing_data ≡ nl.space s.outgoing_payload_size
    → s.outgoing_payload_size < max_message_size
    → s.outgoing_payload_size % 4 ≢ 0
    → write_char nl s ch ≡ record s { outgoing_payload_size = s.outgoing_payload_size + 1 }
unfolding write_char
write_char-lost nl s ch full room odd =
    let p : ℕ = s.outgoing_payload_size in
    let sp : ℕ = nl.space (p + 1) in
    let zeros : List ℕ = replicate sp 0 in
    let more : leb max_message_size p ≡ false = ground arith in
    let same : sp ≡ length s.outgoing_data =
      omega (arith, full, nl.space_lem p (omega arith), nl.space_lem (p + 1) (omega arith)) in
    let kept : fit sp (s.outgoing_data ++ ch ∷ []) ≡ s.outgoing_data =
      ap (λ t. take sp t) (append_assoc s.outgoing_data (ch ∷ []) zeros)
      ∙ take-append_length s.outgoing_data (ch ∷ zeros) sp same in
    rw more
      (ap (λ (t : List ℕ). record s { outgoing_data = t; outgoing_payload_size = p + 1 }) kept)

empty : (xs : List ℕ) → length xs ≡ 0 → xs ≡ []
empty [] e = refl
empty (x ∷ xs) e = absurd (omega arith)

take-append_more :
    (xs ys : List ℕ) (n k : ℕ) → n ≡ length xs + k → take n (xs ++ ys) ≡ xs ++ take k ys
take-append_more [] ys n k e = ap (λ m. take m ys) (omega (arith, e))
take-append_more (x ∷ xs) ys zero k e = absurd (omega arith)
take-append_more (x ∷ xs) ys (suc n) k e =
    ap (λ t. x ∷ t) (take-append_more xs ys n k (omega arith))

-- Behind a content of a multiple of 4 bytes there is no padding.
pub write_data-IsOutput :
    (nl : NlmsgFormat) (s : IccomSocket) (content bytes : List ℕ)
    → IsOutput nl s content
    → length content % 4 ≡ 0
    → length content + length bytes < max_message_size
    → IsOutput nl (write_data nl s bytes) (content ++ bytes)
unfolding write_data
write_data-IsOutput nl s content bytes o aligned room =
    let size : ℕ = s.outgoing_payload_size + length bytes in
    let sp : ℕ = nl.space size in
    let all : List ℕ = content ++ bytes in
    let zeros : List ℕ = replicate sp 0 in
    let counted : length all ≡ length content + length bytes = length-append content bytes in
    let sized : size ≡ length all = omega (arith, o.size) in
    let more : leb max_message_size size ≡ false = ground (arith, o.size) in
    let unpadded : o.pad ≡ [] = empty o.pad (
      omega (
        arith,
        o.total,
        o.length-head,
        ap (λ (t : List ℕ). length t) o.layout,
        length-append o.head (content ++ o.pad),
        length-append content o.pad,
        nl.space_lem (length content) o.low,
      )) in
    let front : List ℕ = o.head ++ all in
    let joined : s.outgoing_data ++ bytes ≡ front =
      rw (o.layout, unpadded, append-nil content) (append_assoc o.head content bytes) in
    let fits : length front ≤ sp = omega (
      arith,
      sized,
      o.length-head,
      length-append o.head all,
      nl.space_lem size (omega (arith, o.size)),
    ) in
    rw more (record {
      head = o.head;
      pad = take (sp - length front) zeros;
      size = sized;
      low = omega arith;
      length-head = o.length-head;
      layout = rw joined (
          take-append_more front zeros sp (sp - length front) (omega (arith, fits))
          ∙ append_assoc o.head all (take (sp - length front) zeros));
      total = length-fit sp (s.outgoing_data ++ bytes) ∙ ap nl.space sized;
    })

pub reset_output-IsOutput :
    (nl : NlmsgFormat) (s : IccomSocket) → IsOutput nl (reset_output nl s) []
unfolding reset_output
reset_output-IsOutput nl s =
    let bare : nl.space 0 ≡ nl.header_size = omega (arith, nl.space_lem 0 (omega arith)) in
    record {
      head = fit (nl.space 0) s.outgoing_data;
      pad = [];
      size = refl;
      low = omega arith;
      length-head = length-fit (nl.space 0) s.outgoing_data ∙ bare;
      layout = sym (append-nil (fit (nl.space 0) s.outgoing_data));
      total = length-fit (nl.space 0) s.outgoing_data;
    }

-- The system gets the header and the content, and the output is empty again.
pub send_lem :
    (nl : NlmsgFormat) (s : IccomSocket) (content : List ℕ) (n : ℕ)
    → IsOutput nl s content
    → 0 < length content
    → (s' : IccomSocket) × (send nl s true (done n) ≡ (done 0, s', some (message nl content)))
      × IsOutput nl s' []
unfolding send after_send
send_lem nl s content n o some_bytes =
    let filled : (length content == 0) ≡ false = ground arith in
    let sent = record s { outgoing_data = message nl content ++ o.pad } in
    (
      reset_output nl sent,
      rw
          (
            o.size,
            filled,
            o.total,
            o.layout,
            send_data_nocopy_lem nl o.head content o.pad n o.length-head some_bytes o.low,
          )
          refl,
      reset_output-IsOutput nl sent,
    )

-- The whole message, received.
pub receive_lem :
    (nl : NlmsgFormat) (r : IccomSocket) (content : List ℕ)
    → 0 < length content
    → length content ≤ max_message_size
    → receive nl r (delivered (length (message nl content)) (message nl content) false false false)
      ≡ (done (length content), record r { incoming_data = message nl content })
unfolding receive after_receive
receive_lem nl r content some_bytes few =
    let n : ℕ = length content in
    let msg : List ℕ = message nl content in
    let room : ℕ = nl.space max_message_size in
    let buffer : List ℕ = fit room r.incoming_data in
    let zeros : List ℕ = replicate (nlmsg_length nl n) 0 in
    let behind : List ℕ = drop (length msg) buffer in
    let positive : Int32.less_equal n 0 ≡ false = ground arith in
    let same : (nlmsg_length nl 0 == nlmsg_length nl 0) ≡ true = ground arith in
    let cut : fit (nlmsg_length nl n) (msg ++ behind) ≡ msg =
      ap (λ t. take (nlmsg_length nl n) t) (append_assoc msg behind zeros)
      ∙ take-append_length msg (behind ++ zeros) (nlmsg_length nl n)
          (sym (length-message nl content)) in
    rw
      (
        receive_data_nocopy_lem nl content buffer room some_bytes few
            (omega (arith, nl.space_lem max_message_size (omega arith))),
        positive,
        same,
        cut,
      )
      refl
