-- ===== src/Libiccom/IccomSocket/Run.antt =====
-- Any use of a socket: the buffer of the output keeps the size that sending asks for.
use iccom_utils.Base.{
  ℕ, ◌+◌, ◌^◌, ◌≤◌, ◌<◌, ◌≡◌, ◌⊎◌, inl, refl, arith, List, [], ◌∷◌, ◌++◌, Bool, true, Option, none,
  some, ◌==◌, leb, length, not, subst, if_split, if_both, ==_false, leb→gt,
}
use iccom_utils.Kernel.{fit, length-fit}
use iccom_utils.Int32
use iccom_utils.Socket.{max_message_size}
use iccom_utils.Libiccom.{IntResult, done, failed, channel_verify}
use iccom_utils.Libiccom.Channel.{channel_verify-in_range}
use iccom_utils.Libiccom.Message.{
  NlmsgFormat, nlmsg_length, Delivery, Reception, receive_data_nocopy,
}
use iccom_utils.Libiccom.Message.RoundTrip.{send_data_nocopy-sized}
use iccom_utils.Libiccom.IccomSocket.{
  IccomSocket, iccom_socket, fresh, write_char, write_data, send, receive, reset_output, appended,
  after_send, after_receive, with_output,
}

-- What a program does with the buffers.
pub data Use : Type 0 where
  char_written : ℕ → Use
  data_written : List ℕ → Use
  output_reset : Use
  sending : Bool → IntResult → Use
  receiving : Delivery → Use

abbrev pub used : NlmsgFormat → IccomSocket → Use → IccomSocket
used nl s (char_written ch) = write_char nl s ch
used nl s (data_written bytes) = write_data nl s bytes
used nl s output_reset = reset_output nl s
used nl s (sending reset answer) = (send nl s reset answer).1
used nl s (receiving delivery) = (receive nl s delivery).1

abbrev pub run : NlmsgFormat → IccomSocket → List Use → IccomSocket
run nl s [] = s
run nl s (u ∷ us) = run nl (used nl s u) us

abbrev pub IsSized : NlmsgFormat → IccomSocket → Type 0
IsSized nl s =
    (length s.outgoing_data ≡ nl.space s.outgoing_payload_size)
    × (s.outgoing_payload_size ≤ max_message_size)

reset_output-IsSized : (nl : NlmsgFormat) (s : IccomSocket) → IsSized nl (reset_output nl s)
unfolding reset_output
reset_output-IsSized nl s = (length-fit (nl.space 0) s.outgoing_data, omega arith)

write_char-IsSized :
    (nl : NlmsgFormat) (s : IccomSocket) (ch : ℕ) → IsSized nl s → IsSized nl (write_char nl s ch)
unfolding write_char appended
write_char-IsSized nl s ch sized =
    let n : ℕ = s.outgoing_payload_size + 1 in
    if_split (IsSized nl) (leb max_message_size s.outgoing_payload_size) (λ full. sized)
      (λ room.
        let low = leb→gt max_message_size s.outgoing_payload_size room in
        (length-fit (nl.space n) (s.outgoing_data ++ ch ∷ []), omega arith))

write_data-IsSized :
    (nl : NlmsgFormat) (s : IccomSocket) (bytes : List ℕ)
    → IsSized nl s
    → IsSized nl (write_data nl s bytes)
unfolding write_data appended
write_data-IsSized nl s bytes sized =
    let n : ℕ = s.outgoing_payload_size + length bytes in
    if_split (IsSized nl) (leb max_message_size n) (λ full. sized)
      (λ room.
        let low = leb→gt max_message_size n room in
        (length-fit (nl.space n) (s.outgoing_data ++ bytes), omega arith))

-- What `send` returns, and what it leaves.
IsSent : NlmsgFormat → IntResult → IntResult × IccomSocket × Option (List ℕ) → Type 0
IsSent nl answer (status, s, sent) = IsSized nl s × ((status ≡ done 0) ⊎ (status ≡ answer))

after_send-IsSent :
    (nl : NlmsgFormat) (s : IccomSocket) (reset : Bool) (answer status : IntResult) (buf : List ℕ)
    (sent : Option (List ℕ))
    → IsSized nl s
    → length buf ≡ nl.space s.outgoing_payload_size
    → (status ≡ done 0) ⊎ (status ≡ answer)
    → IsSent nl answer (after_send nl s reset (status, some buf, sent))
unfolding IsSent after_send with_output
after_send-IsSent nl s reset answer (failed e) buf sent sized size good = ((size, sized.1), good)
after_send-IsSent nl s reset answer (done n) buf sent sized size good = (
  if_both (IsSized nl) reset (reset_output-IsSized nl (record s { outgoing_data = buf }))
      (size, sized.1),
  good,
)

send-IsSent :
    (nl : NlmsgFormat) (s : IccomSocket) (reset : Bool) (answer : IntResult)
    → IsSized nl s
    → IsSent nl answer (send nl s reset answer)
unfolding send IsSent
send-IsSent nl s reset answer sized =
    if_split (IsSent nl answer) (s.outgoing_payload_size == 0) (λ nothing. (sized, inl refl))
      (λ filled.
        let some_bytes = ==_false s.outgoing_payload_size 0 filled in
        let (status, buf, sent, e, size, good) =
          send_data_nocopy-sized nl s.outgoing_data s.outgoing_payload_size answer sized.0
            (ground arith) sized.1 in
        rw e (after_send-IsSent nl s reset answer status buf sent sized size good))

after_receive-IsSized :
    (nl : NlmsgFormat) (s : IccomSocket) (reception : Reception)
    → IsSized nl s
    → IsSized nl (after_receive nl s reception).1
unfolding after_receive
after_receive-IsSized nl s (failed e, bytes, offset) sized = sized
after_receive-IsSized nl s (done n, bytes, none) sized =
    if_both (λ (out : IntResult × IccomSocket). IsSized nl out.1) (Int32.less_equal n 0) sized sized
after_receive-IsSized nl s (done n, bytes, some offset) sized =
    if_both (λ (out : IntResult × IccomSocket). IsSized nl out.1) (Int32.less_equal n 0) sized
      (if_both (λ (out : IntResult × IccomSocket). IsSized nl out.1)
        (not (offset == nlmsg_length nl 0)) sized sized)

receive-IsSized :
    (nl : NlmsgFormat) (s : IccomSocket) (delivery : Delivery)
    → IsSized nl s
    → IsSized nl (receive nl s delivery).1
unfolding receive
receive-IsSized nl s delivery sized =
    let room : ℕ = nl.space max_message_size in
    after_receive-IsSized nl s
      (receive_data_nocopy nl (fit room s.incoming_data) room true delivery) sized

used-IsSized :
    (nl : NlmsgFormat) (s : IccomSocket) (u : Use) → IsSized nl s → IsSized nl (used nl s u)
unfolding IsSent
used-IsSized nl s (char_written ch) sized = write_char-IsSized nl s ch sized
used-IsSized nl s (data_written bytes) sized = write_data-IsSized nl s bytes sized
used-IsSized nl s output_reset sized = reset_output-IsSized nl s
used-IsSized nl s (sending reset answer) sized = (send-IsSent nl s reset answer sized).0
used-IsSized nl s (receiving delivery) sized = receive-IsSized nl s delivery sized

run-IsSized :
    (nl : NlmsgFormat) (s : IccomSocket) (us : List Use) → IsSized nl s → IsSized nl (run nl s us)
run-IsSized nl s [] sized = sized
run-IsSized nl s (u ∷ us) sized = run-IsSized nl (used nl s u) us (used-IsSized nl s u sized)

-- A socket that the constructor makes.
Made : NlmsgFormat → Option IccomSocket → Type 0
Made nl none = Unit
Made nl (some s) = IsSized nl s

fresh-Made :
    (nl : NlmsgFormat) (channel : ℕ) (verified : IntResult) → Made nl (fresh nl channel verified)
unfolding Made fresh
fresh-Made nl channel (failed e) = tt
fresh-Made nl channel (done n) = (length-fit (nl.space 0) [], omega arith)

-- A socket is made for a channel, and characters and vectors are written to it, its output is
-- reset, messages are sent and received, in any order and number and with any answers of the
-- system. Then its buffer for the output has the size with padding for the size of the output,
-- which is at most 4096, and sending returns 0 or the answer of the system, so that it never
-- refuses the output by itself.
pub iccom_socket-IsSized :
    (nl : NlmsgFormat) (channel : ℕ) (s : IccomSocket) (us : List Use) (reset : Bool)
    (answer : IntResult)
    → iccom_socket nl channel ≡ some s
    → IsSized nl (run nl s us)
      × (((send nl (run nl s us) reset answer).0 ≡ done 0)
          ⊎ ((send nl (run nl s us) reset answer).0 ≡ answer))
unfolding iccom_socket Made IsSent
iccom_socket-IsSized nl channel s us reset answer made =
    let start : IsSized nl s =
      subst (Made nl) made (fresh-Made nl channel (channel_verify channel)) in
    let sized : IsSized nl (run nl s us) = run-IsSized nl s us start in
    (sized, (send-IsSent nl (run nl s us) reset answer sized).1)

-- What the constructor makes.
abbrev pub unused : NlmsgFormat → ℕ → IccomSocket
unused nl channel = record {
  sock_fd = failed 1;
  channel = channel;
  incoming_data = [];
  outgoing_data = fit (nl.space 0) [];
  outgoing_payload_size = 0;
}

pub iccom_socket-in_range :
    (nl : NlmsgFormat) (channel : ℕ)
    → channel < 2 ^ 16
    → iccom_socket nl channel ≡ some (unused nl channel)
unfolding iccom_socket fresh
iccom_socket-in_range nl channel low = rw (channel_verify-in_range channel low) refl
