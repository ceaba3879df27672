-- ===== src/Socket.antt =====
-- driver/iccom_socket_if.c, the Netlink sockets of the channels: the loopback rule and the device.
pub mod Loopback
pub mod Parse
pub mod Control
pub mod Dispatch
pub mod Lifecycle
mod Tests
use iccom_utils.Base.{
  ℕ, ◌+◌, ◌*◌, List, Bool, true, false, ◌&&◌, ◌||◌, Option, none, some, ◌==◌, if◌then◌else◌,
}
use iccom_utils.Kernel.{Status, ok, err, Errno}
use iccom_utils.Int32
use iccom_utils.Device.Api.{Handle, Entries}

-- `ICCOM_SK_MAX_CHANNEL_VAL` and `ICCOM_SOCKET_MAX_MESSAGE_SIZE_BYTES`
abbrev pub max_channel_val : ℕ
max_channel_val = 0x7FFF

abbrev pub max_message_size : ℕ
max_message_size = 4096

-- `struct iccom_sk_loopback_mapping_rule`, of which each field is an `int`.
pub record Rule : Type 0 where
  pub from : ℕ
  pub to : ℕ
  pub shift : ℕ

-- What a channel is to the rule: nothing (0), the local end (1) or the remote end (-1) of a loop.
pub data End : Type 0 where
  outside local remote : End

match_rule : Rule → ℕ → End
match_rule rule channel =
    if rule.shift == 0
    then outside
    else if Int32.less_equal rule.from channel && Int32.less_equal channel rule.to
    then local
    else if Int32.less_equal (Int32.add rule.from rule.shift) channel
        && Int32.less_equal channel (Int32.add rule.to rule.shift)
    then remote
    else outside

-- A rule that is not there matches nothing.
pub match_channel2lbackrule : Option Rule → ℕ → End
unfolding match_rule
match_channel2lbackrule none channel = outside
match_channel2lbackrule (some rule) channel = match_rule rule channel

-- The channel at the other end of the loop.
abbrev pub partner : Rule → End → ℕ → ℕ
partner rule local channel = Int32.add channel rule.shift
partner rule remote channel = Int32.sub channel rule.shift
partner rule outside channel = channel

pub lback_rule_verify : Rule → Status
lback_rule_verify rule =
    if rule.shift == 0
    then ok
    else if Int32.less rule.from 0 || Int32.less max_channel_val rule.from
    then err Errno.einval
    else if Int32.less rule.to 0 || Int32.less max_channel_val rule.to
    then err Errno.einval
    else if Int32.less rule.to rule.from
    then err Errno.einval
    else if Int32.less (2 * max_channel_val + 1) (Int32.add rule.to rule.shift)
        || Int32.less (Int32.add rule.from rule.shift) 0
    then err Errno.einval
    else if Int32.less (Int32.magnitude rule.shift) (Int32.add (Int32.sub rule.to rule.from) 1)
    then err Errno.einval
    else ok

-- `struct iccom_sockets_device`, as far as the sockets, the loopback rule and the end of the
-- device go. A Boolean tells that a pointer is valid: the kernel socket, the folder and the file
-- of procfs; `socket_closed` that the completion of this name is completed;
-- `transport` that the transport layer below the core is initialised. `iccom_entries` are those of the
-- core in procfs.
pub record SocketDevice : Type 0 where
  pub socket : Bool
  pub socket_closed : Bool
  pub iccom : Handle
  pub iccom_entries : Entries
  pub transport : Bool
  pub exiting : Bool
  pub proc_root : Bool
  pub loopback_ctl_file : Bool
  pub lback_map_rule : Option Rule
