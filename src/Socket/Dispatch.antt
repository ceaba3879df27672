-- ===== src/Socket/Dispatch.antt =====
-- Messages from user space and from the core. The outcomes of allocating a buffer and of
-- `netlink_unicast` are arguments.
pub mod Isolation
use iccom_utils.Base.{ℕ, ◌+◌, ◌*◌, ◌^◌, ◌%◌, List, Bool, true, false, Option, none, some}
use iccom_utils.Base.{ltb, if◌then◌else◌, length}
use iccom_utils.Kernel.{Status, ok, err, Errno}
use iccom_utils.Device.Api.{Handle, Xchange, post_message}
use iccom_utils.Socket.{
  Rule, End, outside, local, remote, SocketDevice, partner, match_channel2lbackrule,
  max_message_size,
}

-- What is given to `netlink_unicast`: the port and the payload.
pub record Sent : Type 0 where
  pub port : ℕ
  pub payload : List ℕ

-- A message from user space: the ID of the sending port, a `uint32_t`, whether `NLMSG_OK` holds,
-- and the payload.
pub record Netlink : Type 0 where
  pub portid : ℕ
  pub well_formed : Bool
  pub payload : List ℕ

-- The end of `__iccom_socket_dispatch_msg_up`: nobody who listens is no error.
unicast_status : Status → Status
unicast_status ok = ok
unicast_status (err Errno.econnrefused) = ok
unicast_status (err e) = err e

pub dispatch_msg_up : ℕ → List ℕ → Bool → Status → Status × Option Sent
unfolding unicast_status
dispatch_msg_up channel content granted unicast =
    if ltb max_message_size (length content)
    then (err Errno.enomem, none)
    else if granted
    then (unicast_status unicast, some (record { port = channel; payload = content }))
    else (err Errno.epipe, none)

-- The port that a message of a looped channel goes to.
pub loop_port : Option Rule → End → ℕ → Option ℕ
loop_port none side channel = none
loop_port (some rule) outside channel = none
loop_port (some rule) local channel = some (partner rule local channel)
loop_port (some rule) remote channel = some (partner rule remote channel)

pub posted_down :
    SocketDevice → Option (Status × Handle) → Option (Status × Option Sent × SocketDevice)
posted_down d none = none
posted_down d (some (status, iccom)) = some (status, none, record d { iccom = iccom })

-- The two ways that a well-formed message of a channel takes.
pub route :
    SocketDevice
    → ℕ
    → List ℕ
    → Bool
    → Status
    → Xchange
    → Option ℕ
    → Option (Status × Option Sent × SocketDevice)
unfolding posted_down
route d channel content granted unicast answer (some port) =
    let (status, sent) = dispatch_msg_up port content granted unicast in some (status, sent, d)
route d channel content granted unicast answer none =
    posted_down d (post_message d.iccom (some content) (length content) channel answer)

-- The priority goes to `iccom_post_message`, which does not use it.
pub dispatch_msg_down :
    SocketDevice → Netlink → Bool → Status → Xchange → Option (Status × Option Sent × SocketDevice)
unfolding route
dispatch_msg_down d msg granted unicast answer =
    let channel = msg.portid % 2 ^ 15 in
    let side = match_channel2lbackrule d.lback_map_rule channel in
    let routed =
      route d channel msg.payload granted unicast answer
        (loop_port d.lback_map_rule side channel) in
    if msg.well_formed then routed else some (err Errno.einval, none, d)

forget_status : Option (Status × Option Sent × SocketDevice) → Option (Option Sent × SocketDevice)
forget_status none = none
forget_status (some (status, sent, d)) = some (sent, d)

-- `__iccom_socket_netlink_data_ready`
pub netlink_data_ready :
    SocketDevice → Netlink → Bool → Status → Xchange → Option (Option Sent × SocketDevice)
unfolding forget_status
netlink_data_ready d msg granted unicast answer =
    if d.exiting
    then some (none, d)
    else forget_status (dispatch_msg_down d msg granted unicast answer)

-- A looped channel gets nothing from the other side.
passed : End → Option Sent → Option Sent
passed outside sent = sent
passed local sent = none
passed remote sent = none

-- `__iccom_socket_msg_rx_callback`: whether the callback keeps the data, and what is sent.
pub msg_rx_callback : SocketDevice → ℕ → List ℕ → Bool → Status → Bool × Option Sent
unfolding passed
msg_rx_callback d channel content granted unicast =
    let (status, sent) = dispatch_msg_up channel content granted unicast in
    (false, passed (match_channel2lbackrule d.lback_map_rule channel) sent)
