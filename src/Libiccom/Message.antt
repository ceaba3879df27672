-- ===== src/Libiccom/Message.antt =====
-- Messages between a program and its Netlink socket. The Netlink header belongs to the system, as
-- do `sendmsg` and `recvmsg`, of which the answers are arguments.
pub mod RoundTrip
use iccom_utils.Base.{
  ℕ, ◌+◌, ◌*◌, ◌/◌, ◌^◌, ◌≤◌, ◌<◌, ◌≡◌, List, ◌++◌, Bool, true, not, Option, none, some, ◌==◌, leb,
  ltb, if◌then◌else◌, length, take, drop,
}
use iccom_utils.Kernel.{Memory, kmalloc}
use iccom_utils.Int32
use iccom_utils.Socket.{max_message_size}
use iccom_utils.Libiccom.{
  IntResult, done, failed, errno_eagain, errno_e2big, errno_einval, errno_enfile, errno_enomem,
  errno_epipe, errno_ebade, errno_eoverflow,
}

-- `struct nlmsghdr` and the macros of linux/netlink.h: a header that is 0 but for its length
-- field, `NLMSG_SPACE`, the length field of a message, `NLMSG_OK`.
pub record NlmsgFormat : Type 0 where
  pub header_size : ℕ
  pub header : ℕ → List ℕ
  pub space : ℕ → ℕ
  pub nlmsg_len : List ℕ → ℕ
  pub nlmsg_ok : List ℕ → ℕ → Bool
  pub length-header : (n : ℕ) → length (header n) ≡ header_size
  pub header_fits : header_size ≤ 64
  pub space_lem : (n : ℕ) → n ≤ max_message_size → space n ≡ header_size + (n + 3) / 4 * 4
  pub nlmsg_len-header : (n : ℕ) (bytes : List ℕ) → n < 2 ^ 32 → nlmsg_len (header n ++ bytes) ≡ n
  pub nlmsg_ok-header :
      (n len : ℕ) (bytes : List ℕ)
      → header_size ≤ n
      → n ≤ len
      → len < 2 ^ 31
      → nlmsg_ok (header n ++ bytes) len ≡ true

-- `NLMSG_LENGTH`
abbrev pub nlmsg_length : NlmsgFormat → ℕ → ℕ
nlmsg_length nl n = n + nl.header_size

-- The buffer once the header is in place.
abbrev framed : NlmsgFormat → List ℕ → ℕ → List ℕ
framed nl bytes data_size = nl.header (nlmsg_length nl data_size) ++ drop nl.header_size bytes

-- `sendmsg` with its answer.
sent_as : List ℕ → IntResult → IntResult × Option (List ℕ)
sent_as bytes (done n) = (done 0, some bytes)
sent_as bytes (failed e) = (failed e, some bytes)

-- The result, the buffer, and what `sendmsg` is called with.
abbrev pub Sending : Type 0
Sending = IntResult × Option (List ℕ) × Option (List ℕ)

send_framed : NlmsgFormat → Option (List ℕ) → ℕ → IntResult → Sending
unfolding sent_as
send_framed nl none data_size answer = (failed errno_einval, none, none)
send_framed nl (some buf) data_size answer =
    let bytes = framed nl buf data_size in
    let (status, sent) = sent_as (take (nlmsg_length nl data_size) bytes) answer in
    (status, some bytes, sent)

-- `buf` has `buf_size` bytes or is NULL.
pub send_data_nocopy : NlmsgFormat → Option (List ℕ) → ℕ → ℕ → ℕ → IntResult → Sending
unfolding send_framed
send_data_nocopy nl buf buf_size data_offset data_size answer =
    let framed_send = send_framed nl buf data_size answer in
    if not (buf_size == nl.space data_size)
    then (failed errno_einval, buf, none)
    else if not (data_offset == nlmsg_length nl 0)
    then (failed errno_einval, buf, none)
    else if ltb max_message_size data_size
    then (failed errno_e2big, buf, none)
    else if data_size == 0
    then (failed errno_einval, buf, none)
    else framed_send

-- Behind `malloc`: the data is copied behind the room for the header.
send_copy : NlmsgFormat → List ℕ → ℕ → Option (List ℕ) → IntResult → IntResult × Option (List ℕ)
send_copy nl content data_size none answer = (failed errno_enomem, none)
send_copy nl content data_size (some area) answer =
    let buf =
      take nl.header_size area
      ++ (take data_size content ++ drop (nl.header_size + data_size) area) in
    let (status, _, sent) =
      send_data_nocopy nl (some buf) (nl.space data_size) (nlmsg_length nl 0) data_size answer in
    (status, sent)

send_some :
    NlmsgFormat → Option (List ℕ) → ℕ → Option (List ℕ) → IntResult → IntResult × Option (List ℕ)
unfolding send_copy
send_some nl none data_size area answer = (failed errno_einval, none)
send_some nl (some content) data_size area answer = send_copy nl content data_size area answer

-- `malloc` follows the schedule as `kmalloc` does; the buffer is freed at the end.
pub send_data : NlmsgFormat → Option (List ℕ) → ℕ → Memory → IntResult → IntResult × Option (List ℕ)
unfolding send_some
send_data nl content data_size m answer =
    let (area, _) = kmalloc (nl.space data_size) m in
    let out = send_some nl content data_size area answer in
    if ltb max_message_size data_size
    then (failed errno_e2big, none)
    else if data_size == 0
    then (failed errno_einval, none)
    else out

-- What `recvmsg` does: an error number, or the length that it returns, the bytes that it writes to
-- the buffer, and the flags MSG_TRUNC, MSG_CTRUNC and MSG_ERRQUEUE.
pub data Delivery : Type 0 where
  refused : ℕ → Delivery
  delivered : ℕ → List ℕ → Bool → Bool → Bool → Delivery

-- The result, the buffer, and the offset of the data where it is set.
abbrev pub Reception : Type 0
Reception = IntResult × List ℕ × Option ℕ

abbrev payload : NlmsgFormat → List ℕ → ℕ
payload nl bytes = Int32.sub (nl.nlmsg_len bytes) (nl.space 0)

unpack : NlmsgFormat → List ℕ → Delivery → Reception
unpack nl buffer (refused e) = (if e == errno_eagain then done 0 else failed e, buffer, none)
unpack nl buffer (delivered len written truncated control_truncated from_error_queue) =
    let bytes = written ++ drop (length written) buffer in
    if len == 0
    then (done 0, bytes, none)
    else if truncated
    then (failed errno_eoverflow, bytes, none)
    else if control_truncated
    then (failed errno_eoverflow, bytes, none)
    else if from_error_queue
    then (failed errno_ebade, bytes, none)
    else if not (nl.nlmsg_ok bytes len)
    then (failed errno_epipe, bytes, none)
    else (done (payload nl bytes), bytes, some (nlmsg_length nl 0))

-- `offset_out` tells whether there is a place for the offset.
pub receive_data_nocopy : NlmsgFormat → List ℕ → ℕ → Bool → Delivery → Reception
unfolding unpack
receive_data_nocopy nl buffer buffer_size offset_out delivery =
    let out = unpack nl buffer delivery in
    if leb buffer_size (nl.space 0)
    then (failed errno_enfile, buffer, none)
    else if not offset_out
    then (failed errno_einval, buffer, none)
    else out

abbrev pub receive_data : NlmsgFormat → List ℕ → ℕ → Bool → Delivery → Reception
receive_data = receive_data_nocopy

-- The data goes to the start of the buffer; the offset is 0 where it is not set.
moved : Reception → IntResult × List ℕ
moved (failed e, bytes, offset) = (failed e, bytes)
moved (done n, bytes, none) =
    (done n, if Int32.less_equal n 0 then bytes else take n bytes ++ drop n bytes)
moved (done n, bytes, some offset) =
    (done n, if Int32.less_equal n 0 then bytes else take n (drop offset bytes) ++ drop n bytes)

pub receive_data_pure : NlmsgFormat → List ℕ → ℕ → Delivery → IntResult × List ℕ
unfolding moved
receive_data_pure nl buffer buffer_size delivery =
    moved (receive_data nl buffer buffer_size true delivery)
