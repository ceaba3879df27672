-- ===== src/Socket/Lifecycle.antt =====
-- Opening and closing the socket device. The answers of the kernel are arguments.
pub mod Closed
pub mod Opened
use iccom_utils.Base.{ℕ, Bool, true, false, Option, none, some, not, if◌then◌else◌}
use iccom_utils.Kernel.{Status, ok, err, Errno, Memory}
use iccom_utils.Storage.{any_channel_value}
use iccom_utils.Device.Api.{
  Handle, no_private, Entries, no_entries, Surroundings, is_running, api_set_channel_callback,
}
use iccom_utils.Device.Api.Binded.{iccom_init_binded, iccom_close_binded}
use iccom_utils.Socket.{Rule, SocketDevice}

-- What `netlink_kernel_create` returns: a socket, an error pointer or NULL.
pub data Creation : Type 0 where
  created : Creation
  error : Errno → Creation
  null : Creation

pub reg_socket_family : SocketDevice → Creation → Status × SocketDevice
reg_socket_family d created = (ok, record d { socket = true })
reg_socket_family d (error e) = (err e, record d { socket = false })
reg_socket_family d null = (err Errno.enodev, record d { socket = false })

pub unreg_socket_family : SocketDevice → SocketDevice
unreg_socket_family d =
    if d.socket then record d { exiting = true; socket = false; socket_closed = true } else d

-- `made` tells whether the kernel makes the folder, or the file.
pub procfs_init : SocketDevice → Bool → Status × SocketDevice
procfs_init d made = (if made then ok else err Errno.eio, record d { proc_root = made })

pub procfs_close : SocketDevice → SocketDevice
procfs_close d = if d.proc_root then record d { proc_root = false } else d

abbrev pub no_rule : Rule
no_rule = record { from = 0; to = 0; shift = 0 }

pub loopback_ctl_init : SocketDevice → Bool → Bool → Status × SocketDevice
loopback_ctl_init d granted made =
    let fallback = record d { lback_map_rule = none; loopback_ctl_file = false } in
    let ruled = record fallback { lback_map_rule = some no_rule } in
    if not granted
    then (err Errno.enomem, fallback)
    else if not d.proc_root
    then (err Errno.enoent, ruled)
    else if made
    then (ok, record ruled { loopback_ctl_file = true })
    else (err Errno.eio, ruled)

pub loopback_ctl_close : SocketDevice → SocketDevice
loopback_ctl_close d = record d { lback_map_rule = none; loopback_ctl_file = false }

pub protocol_device_close : SocketDevice → SocketDevice
protocol_device_close d =
    let (iccom, transport, entries) = iccom_close_binded d.iccom d.transport d.iccom_entries in
    if is_running d.iccom
    then record d { exiting = true; iccom = iccom; transport = transport; iccom_entries = entries }
    else d

-- What follows the installation of the callback.
hooked : SocketDevice → Status × Handle → Status × SocketDevice
hooked d (ok, iccom) = (ok, record d { iccom = iccom })
hooked d (err e, iccom) = (err e, protocol_device_close (record d { iccom = iccom }))

-- What follows `iccom_init_binded`. `callback` and `consumer` stand for the addresses of
-- `__iccom_socket_msg_rx_callback` and of the device.
hook : SocketDevice → ℕ → ℕ → Status × Handle × Bool × Entries → Status × SocketDevice
unfolding hooked
hook d callback consumer (ok, iccom, transport, entries) =
    hooked (record d { transport = transport; iccom_entries = entries })
      (api_set_channel_callback iccom any_channel_value (some callback) true consumer)
hook d callback consumer (err e, iccom, transport, entries) =
    (err e, record d { iccom = iccom; transport = transport; iccom_entries = entries })

pub protocol_device_init : SocketDevice → ℕ → ℕ → Surroundings → Memory → Status × SocketDevice
unfolding hook
protocol_device_init d callback consumer w m =
    hook d callback consumer (iccom_init_binded d.iccom d.transport d.iccom_entries w m)

pub device_close : SocketDevice → SocketDevice
device_close d = protocol_device_close (unreg_socket_family (procfs_close (loopback_ctl_close d)))

-- What the surroundings decide when the device is opened.
pub record Opening : Type 0 where
  pub creation : Creation
  pub callback : ℕ
  pub consumer : ℕ
  pub surroundings : Surroundings
  pub memory : Memory
  pub root_made : Bool
  pub rule_granted : Bool
  pub file_made : Bool

abbrev pub zeroed : SocketDevice
zeroed = record {
  socket = false;
  socket_closed = false;
  iccom = no_private;
  iccom_entries = no_entries;
  transport = false;
  exiting = false;
  proc_root = false;
  loopback_ctl_file = false;
  lback_map_rule = none;
}

-- The results of the control files are not looked at.
after_protocol : Opening → Status × SocketDevice → Status × SocketDevice
after_protocol o (err e, d) = (err e, device_close d)
after_protocol o (ok, d) =
    (ok, (loopback_ctl_init (procfs_init d o.root_made).1 o.rule_granted o.file_made).1)

after_socket : Opening → Status × SocketDevice → Status × SocketDevice
unfolding after_protocol
after_socket o (err e, d) = (err e, device_close d)
after_socket o (ok, d) =
    after_protocol o (protocol_device_init d o.callback o.consumer o.surroundings o.memory)

-- `__iccom_socket_device_init` on a valid device.
pub device_init : Opening → Status × SocketDevice
unfolding after_socket
device_init o = after_socket o (reg_socket_family zeroed o.creation)
