-- ===== src/Libiccom/IccomSocket.antt =====
-- The class IccomSocket: one socket with its buffers. `resize` of a vector fills up with zeros.
pub mod Output
pub mod Input
pub mod RoundTrip
pub mod Run
pub mod Timeouts
use iccom_utils.Base.{
  ℕ, ◌+◌, ◌-◌, ◌*◌, ◌/◌, ◌^◌, List, [], ◌∷◌, ◌++◌, Bool, true, false, not, Option, none, some, ◌==◌,
  leb, ltb, if◌then◌else◌, length, take, drop, get_elem?,
}
use iccom_utils.Kernel.{Memory, fit}
use iccom_utils.Int32
use iccom_utils.Socket.{max_message_size}
use iccom_utils.Libiccom.{
  IntResult, done, failed, Call, close_call, errno_ebadf, channel_verify, open_socket,
}
use iccom_utils.Libiccom.Message.{
  NlmsgFormat, nlmsg_length, Delivery, Sending, Reception, send_data, send_data_nocopy,
  receive_data_nocopy, receive_data_pure,
}

abbrev errno_efault : ℕ
errno_efault = 14

abbrev errno_ebadfd : ℕ
errno_ebadfd = 77

-- The socket is open where `sock_fd` is not negative.
pub record IccomSocket : Type 0 where
  pub sock_fd : IntResult
  pub channel : ℕ
  pub incoming_data : List ℕ
  pub outgoing_data : List ℕ
  pub outgoing_payload_size : ℕ

fresh : NlmsgFormat → ℕ → IntResult → Option IccomSocket
fresh nl channel (failed e) = none
fresh nl channel (done n) = some (record {
  sock_fd = failed 1;
  channel = channel;
  incoming_data = [];
  outgoing_data = fit (nl.space 0) [];
  outgoing_payload_size = 0;
})

-- The constructor; `none` is the exception for a channel that is out of range.
pub iccom_socket : NlmsgFormat → ℕ → Option IccomSocket
unfolding fresh
iccom_socket nl channel = fresh nl channel (channel_verify channel)

-- `open`, where the socket is not open yet; the answers are those of `socket` and `bind`.
pub socket_open : IccomSocket → IntResult → IntResult → IntResult × IccomSocket × List Call
socket_open s socket bind =
    let (opened, calls) = open_socket s.channel socket bind in
    elim s.sock_fd [
      | done fd ↦ (done fd, s, [])
      | failed e ↦ (opened, record s { sock_fd = opened }, calls)
    ]

-- `close`, which the destructor calls too.
pub socket_close : IccomSocket → IccomSocket × List Call
socket_close s = elim s.sock_fd [
  | done fd ↦ (record s { sock_fd = failed 1 }, close_call fd ∷ [])
  | failed e ↦ (s, [])
]

pub is_open : IccomSocket → Bool
is_open s = elim s.sock_fd [ done fd ↦ true | failed e ↦ false ]

pub reset_output : NlmsgFormat → IccomSocket → IccomSocket
reset_output nl s = record s {
  outgoing_data = fit (nl.space 0) s.outgoing_data;
  outgoing_payload_size = 0;
}

pub reset_input : IccomSocket → IccomSocket
reset_input s = record s { incoming_data = [] }

abbrev pub output_size : IccomSocket → ℕ
output_size s = s.outgoing_payload_size

pub output_free_space : IccomSocket → ℕ
output_free_space s =
    if leb s.outgoing_payload_size max_message_size
    then max_message_size - s.outgoing_payload_size
    else 0

-- Behind `push_back` of the bytes.
appended : NlmsgFormat → IccomSocket → List ℕ → IccomSocket
appended nl s bytes =
    let size = s.outgoing_payload_size + length bytes in
    record s {
      outgoing_data = fit (nl.space size) (s.outgoing_data ++ bytes);
      outgoing_payload_size = size;
    }

-- `operator <<` of a character
pub write_char : NlmsgFormat → IccomSocket → ℕ → IccomSocket
unfolding appended
write_char nl s ch =
    if leb max_message_size s.outgoing_payload_size then s else appended nl s (ch ∷ [])

-- `operator <<` of a vector
pub write_data : NlmsgFormat → IccomSocket → List ℕ → IccomSocket
unfolding appended
write_data nl s bytes =
    if leb max_message_size (s.outgoing_payload_size + length bytes) then s else appended nl s bytes

-- The buffer after sending.
with_output : IccomSocket → Option (List ℕ) → IccomSocket
with_output s none = s
with_output s (some bytes) = record s { outgoing_data = bytes }

-- Behind `iccom_send_data_nocopy`.
after_send : NlmsgFormat → IccomSocket → Bool → Sending → IntResult × IccomSocket × Option (List ℕ)
unfolding with_output
after_send nl s reset (failed e, buf, sent) = (failed e, with_output s buf, sent)
after_send nl s reset (done n, buf, sent) =
    let s' = with_output s buf in (done n, if reset then reset_output nl s' else s', sent)

-- `send`; `answer` is that of `sendmsg`, and the last part of the result what it is called with.
pub send : NlmsgFormat → IccomSocket → Bool → IntResult → IntResult × IccomSocket × Option (List ℕ)
unfolding after_send
send nl s reset_message_on_success answer =
    let sending =
      send_data_nocopy nl (some s.outgoing_data) (length s.outgoing_data) (nlmsg_length nl 0)
        s.outgoing_payload_size answer in
    let out = after_send nl s reset_message_on_success sending in
    if s.outgoing_payload_size == 0 then (done 0, s, none) else out

-- Behind `iccom_receive_data_nocopy`; the offset is 0 where it is not set.
after_receive : NlmsgFormat → IccomSocket → Reception → IntResult × IccomSocket
after_receive nl s (failed e, bytes, offset) = (failed e, record s { incoming_data = [] })
after_receive nl s (done n, bytes, none) =
    if Int32.less_equal n 0
    then (done n, record s { incoming_data = [] })
    else (failed errno_efault, record s { incoming_data = [] })
after_receive nl s (done n, bytes, some offset) =
    if Int32.less_equal n 0
    then (done n, record s { incoming_data = [] })
    else if not (offset == nlmsg_length nl 0)
    then (failed errno_efault, record s { incoming_data = [] })
    else (done n, record s { incoming_data = fit (nlmsg_length nl n) bytes })

-- `receive`
pub receive : NlmsgFormat → IccomSocket → Delivery → IntResult × IccomSocket
unfolding after_receive
receive nl s delivery =
    let room = nl.space max_message_size in
    after_receive nl s (receive_data_nocopy nl (fit room s.incoming_data) room true delivery)

pub input_size : NlmsgFormat → IccomSocket → ℕ
input_size nl s =
    if leb (nl.space 0) (length s.incoming_data)
    then Int32.sub (nl.nlmsg_len s.incoming_data) (nl.space 0)
    else 0

-- `operator []`; `none` where the assertion on the index fails.
pub input_at : NlmsgFormat → IccomSocket → ℕ → Option ℕ
input_at nl s idx =
    if ltb idx (input_size nl s) then get_elem? s.incoming_data (idx + nlmsg_length nl 0) else none

-- `send_direct`
pub send_direct :
    NlmsgFormat → IccomSocket → List ℕ → Memory → IntResult → IntResult × Option (List ℕ)
send_direct nl s bytes m answer = elim s.sock_fd [
  | done fd ↦ send_data nl (some bytes) (length bytes) m answer
  | failed e ↦ (failed errno_ebadfd, none)
]

direct : IntResult × List ℕ → IntResult × List ℕ
direct (done n, bytes) = (done n, if Int32.less n 0 then [] else fit n bytes)
direct (failed e, bytes) = (failed e, [])

-- `receive_direct` to a vector
pub receive_direct : NlmsgFormat → IccomSocket → List ℕ → Delivery → IntResult × List ℕ
unfolding direct
receive_direct nl s data_out delivery =
    let room = nl.space max_message_size in
    let received = direct (receive_data_pure nl (fit room data_out) room delivery) in
    elim s.sock_fd [ done fd ↦ received | failed e ↦ (failed errno_ebadfd, []) ]

-- `receive_direct` to a buffer
pub receive_direct_buffer : NlmsgFormat → IccomSocket → List ℕ → Delivery → IntResult × List ℕ
receive_direct_buffer nl s buffer delivery =
    let received = receive_data_pure nl buffer (length buffer) delivery in
    elim s.sock_fd [ done fd ↦ received | failed e ↦ (failed errno_ebadfd, buffer) ]
