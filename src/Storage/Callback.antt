-- ===== src/Storage/Callback.antt =====
-- driver/iccom.c, the callbacks that a consumer installs for a channel or for all.
pub mod Install
use iccom_utils.Base.{ℕ, Option, none, some, ◌==◌, if◌then◌else◌}
use iccom_utils.Kernel.{Status, ok, err, Errno, Memory}
use iccom_utils.Storage.{Channel, Storage, any_channel_value, find_channel, update_channel}
use iccom_utils.Storage.Update.{add_channel}

install : Option ℕ → ℕ → Channel → Channel
install callback consumer_data c = record c {
  consumer_callback_data = consumer_data;
  message_ready_callback = callback;
}

-- The case of a channel that is not there yet.
install_new : Storage → ℕ → Option ℕ → ℕ → Memory → Status × Storage × Memory
unfolding install
install_new s channel none consumer_data m = (ok, s, m)
install_new s channel (some callback) consumer_data m =
    let (there, s', m') = add_channel s channel m in
    if there
    then (ok, update_channel channel (install (some callback) consumer_data) s', m')
    else (err Errno.enomem, s', m')

-- The case of one channel, with what the lookup finds.
install_in : Option Channel → Storage → ℕ → Option ℕ → ℕ → Memory → Status × Storage × Memory
unfolding install install_new
install_in none s channel callback consumer_data m = install_new s channel callback consumer_data m
install_in (some c) s channel callback consumer_data m =
    (ok, update_channel channel (install callback consumer_data) s, m)

unfoldable pub set_channel_callback :
    Storage → ℕ → Option ℕ → ℕ → Memory → Status × Storage × Memory
unfolding install_in
set_channel_callback s channel callback consumer_data m =
    if channel == any_channel_value
    then (
      ok,
      record s { message_ready_global_callback = callback; global_consumer_data = consumer_data },
      m,
    )
    else install_in (find_channel s channel) s channel callback consumer_data m

pub reset_channel_callback : Storage → ℕ → Memory → Status × Storage × Memory
reset_channel_callback s channel m = set_channel_callback s channel none 0 m

callback_of : Option Channel → Option ℕ
callback_of none = none
callback_of (some c) = c.message_ready_callback

unfoldable pub get_channel_callback : Storage → ℕ → Option ℕ
unfolding callback_of
get_channel_callback s channel =
    if channel == any_channel_value
    then s.message_ready_global_callback
    else callback_of (find_channel s channel)
