-- ===== src/Libiccom.antt =====
-- lib/iccom.c and lib/iccom.h, the library for programs: results, sockets and the verification of
-- channels. What the system calls and the C library answer are arguments.
pub mod Channel
pub mod Timeout
pub mod Message
pub mod Loopback
pub mod IccomSocket
mod Tests
use iccom_utils.Base.{ℕ, ◌+◌, List, [], ◌∷◌, Bool, ◌&&◌, ◌||◌, ◌==◌, leb, if◌then◌else◌}
use iccom_utils.Int32

-- An `int` result: a pattern of 32 bits, or a negated error number.
pub data IntResult : Type 0 where
  done : ℕ → IntResult
  failed : ℕ → IntResult

abbrev pub errno_eio : ℕ
errno_eio = 5

abbrev pub errno_e2big : ℕ
errno_e2big = 7

abbrev pub errno_ebadf : ℕ
errno_ebadf = 9

abbrev pub errno_eagain : ℕ
errno_eagain = 11

abbrev pub errno_enomem : ℕ
errno_enomem = 12

abbrev pub errno_einval : ℕ
errno_einval = 22

abbrev pub errno_enfile : ℕ
errno_enfile = 23

abbrev pub errno_epipe : ℕ
errno_epipe = 32

abbrev pub errno_ebade : ℕ
errno_ebade = 52

abbrev pub errno_eoverflow : ℕ
errno_eoverflow = 75

-- `ICCOM_MAX_CHANNEL`; `ICCOM_MIN_CHANNEL` is 0.
abbrev pub max_channel : ℕ
max_channel = 0x7FFF

abbrev range_size : ℕ
range_size = max_channel + 1

-- `ICCOM_CHANNEL_AREA_PRIME`, `ICCOM_CHANNEL_AREA_LOOPBACK` and `ICCOM_CHANNEL_AREA_ANY`
abbrev pub area_prime : ℕ
area_prime = 1

abbrev pub area_loopback : ℕ
area_loopback = 2

abbrev pub area_any : ℕ
area_any = 3

-- `__iccom_channel_verify`, whether it returns 0. The comparisons are of unsigned numbers.
pub area_verify : ℕ → ℕ → Bool
area_verify channel area =
    ((leb 0 channel || leb channel max_channel) && (area == area_prime || area == area_any))
    || ((leb range_size channel || leb channel (max_channel + range_size))
        && (area == area_loopback || area == area_any))

-- `iccom_channel_verify`
pub channel_verify : ℕ → IntResult
channel_verify channel =
    if Int32.less channel 0 || Int32.less (max_channel + range_size) channel
    then failed errno_einval
    else done 0

-- What the library asks the system for: a socket, its port, and its end.
pub data Call : Type 0 where
  socket_call : Call
  bind_call : ℕ → ℕ → Call
  close_call : ℕ → Call

-- Behind `bind`.
with_port : ℕ → ℕ → IntResult → IntResult × List Call
with_port fd channel (done n) = (done fd, socket_call ∷ bind_call fd channel ∷ [])
with_port fd channel (failed e) =
    (failed e, socket_call ∷ bind_call fd channel ∷ close_call fd ∷ [])

-- Behind `socket`.
with_socket : ℕ → IntResult → IntResult → IntResult × List Call
unfolding with_port
with_socket channel (failed e) bind = (failed e, socket_call ∷ [])
with_socket channel (done fd) bind = with_port fd channel bind

with_channel : ℕ → IntResult → IntResult → IntResult → IntResult × List Call
unfolding with_socket
with_channel channel (failed e) socket bind = (failed errno_einval, [])
with_channel channel (done n) socket bind = with_socket channel socket bind

-- The last two arguments are what `socket` and `bind` answer.
pub open_socket : ℕ → IntResult → IntResult → IntResult × List Call
unfolding with_channel
open_socket channel socket bind = with_channel channel (channel_verify channel) socket bind
