-- ===== src/Libiccom/IccomSocket/Timeouts.antt =====
-- The timeouts of the class: those of its socket, where it is open.
use iccom_utils.Base.{ℕ}
use iccom_utils.Libiccom.{IntResult, done, failed, errno_ebadf}
use iccom_utils.Libiccom.Timeout.{
  Options, set_socket_read_timeout, get_socket_read_timeout, set_socket_write_timeout,
  get_socket_write_timeout,
}
use iccom_utils.Libiccom.IccomSocket.{IccomSocket}

pub set_read_timeout : IccomSocket → Options → ℕ → IntResult → IntResult × Options
set_read_timeout s o ms answer = elim s.sock_fd [
  | done fd ↦ set_socket_read_timeout o ms answer
  | failed e ↦ (failed errno_ebadf, o)
]

pub read_timeout : IccomSocket → Options → IntResult → IntResult
read_timeout s o answer = elim s.sock_fd [
  | done fd ↦ get_socket_read_timeout o answer
  | failed e ↦ failed errno_ebadf
]

pub set_write_timeout : IccomSocket → Options → ℕ → IntResult → IntResult × Options
set_write_timeout s o ms answer = elim s.sock_fd [
  | done fd ↦ set_socket_write_timeout o ms answer
  | failed e ↦ (failed errno_ebadf, o)
]

pub write_timeout : IccomSocket → Options → IntResult → IntResult
write_timeout s o answer = elim s.sock_fd [
  | done fd ↦ get_socket_write_timeout o answer
  | failed e ↦ failed errno_ebadf
]
