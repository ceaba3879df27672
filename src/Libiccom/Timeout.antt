-- ===== src/Libiccom/Timeout.antt =====
-- The timeouts of a socket, in milliseconds for the caller and as a `struct timeval` for the
-- system.
use iccom_utils.Base.{
  ℕ, ◌+◌, ◌-◌, ◌*◌, ◌/◌, ◌%◌, ◌^◌, ◌<◌, ◌≡◌, refl, arith, ap, true, false, if◌then◌else◌,
}
use iccom_utils.Int32
use iccom_utils.Libiccom.{IntResult, done, failed, errno_einval}

-- `struct timeval`
pub record Timeval : Type 0 where
  pub sec : ℕ
  pub usec : ℕ

-- The options of a socket.
pub record Options : Type 0 where
  pub read_timeout : Timeval
  pub write_timeout : Timeval

abbrev pub timeval_of : ℕ → Timeval
timeval_of ms = let sec = ms / 1000 in record { sec = sec; usec = (ms - sec * 1000) * 1000 }

abbrev pub milliseconds : Timeval → ℕ
milliseconds timeout = (timeout.sec * 1000 + timeout.usec / 1000) % 2 ^ 32

-- `setsockopt` with its answer.
with_read : Options → Timeval → IntResult → IntResult × Options
with_read o timeout (done n) = (done 0, record o { read_timeout = timeout })
with_read o timeout (failed e) = (failed e, o)

with_write : Options → Timeval → IntResult → IntResult × Options
with_write o timeout (done n) = (done 0, record o { write_timeout = timeout })
with_write o timeout (failed e) = (failed e, o)

pub set_socket_read_timeout : Options → ℕ → IntResult → IntResult × Options
unfolding with_read
set_socket_read_timeout o ms answer =
    let set = with_read o (timeval_of ms) answer in
    if Int32.less ms 0 then (failed errno_einval, o) else set

pub set_socket_write_timeout : Options → ℕ → IntResult → IntResult × Options
unfolding with_write
set_socket_write_timeout o ms answer =
    let set = with_write o (timeval_of ms) answer in
    if Int32.less ms 0 then (failed errno_einval, o) else set

-- `getsockopt` with its answer.
timeout_or : Timeval → IntResult → IntResult
timeout_or timeout (done n) = done (milliseconds timeout)
timeout_or timeout (failed e) = failed e

pub get_socket_read_timeout : Options → IntResult → IntResult
unfolding timeout_or
get_socket_read_timeout o answer = timeout_or o.read_timeout answer

pub get_socket_write_timeout : Options → IntResult → IntResult
unfolding timeout_or
get_socket_write_timeout o answer = timeout_or o.write_timeout answer

timeval_lem :
    (ms : ℕ) → ms < 2 ^ 31 → (milliseconds (timeval_of ms) ≡ ms) × ((timeval_of ms).usec < 1000000)
timeval_lem ms small = (omega (arith, small), omega arith)

-- A number of milliseconds below 2^31 is set as a read timeout and then as a write timeout, and the
-- system accepts both: each reads back as it was set, and the microseconds of both are below a
-- million. A negative number is refused, and the options stay.
pub set_get_timeout :
    (o : Options) (ms ms' n n' : ℕ) (answer : IntResult)
    → ms < 2 ^ 31
    → ms' < 2 ^ 31
    → let (status, o₁) = set_socket_read_timeout o ms (done n) in
      let (status', o₂) = set_socket_write_timeout o₁ ms' (done n') in
      (status ≡ done 0)
      × (status' ≡ done 0)
      × (get_socket_read_timeout o₂ (done n) ≡ done ms)
      × (get_socket_write_timeout o₂ (done n') ≡ done ms')
      × (o₂.read_timeout.usec < 1000000)
      × (o₂.write_timeout.usec < 1000000)
      × (set_socket_read_timeout o (2 ^ 32 - 1 - ms) answer ≡ (failed errno_einval, o))
      × (set_socket_write_timeout o (2 ^ 32 - 1 - ms) answer ≡ (failed errno_einval, o))
unfolding set_socket_read_timeout set_socket_write_timeout get_socket_read_timeout
    get_socket_write_timeout
set_get_timeout o ms ms' n n' answer small small' =
    let accepted : Int32.less ms 0 ≡ false = ground arith in
    let accepted' : Int32.less ms' 0 ≡ false = ground arith in
    let refused : Int32.less (2 ^ 32 - 1 - ms) 0 ≡ true = ground arith in
    rw (accepted, accepted', refused)
      (
        refl,
        refl,
        ap done (timeval_lem ms small).0,
        ap done (timeval_lem ms' small').0,
        (timeval_lem ms small).1,
        (timeval_lem ms' small').1,
        refl,
        refl,
      )
