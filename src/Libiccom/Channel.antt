-- ===== src/Libiccom/Channel.antt =====
-- The check of a channel.
use iccom_utils.Base.{ℕ, ◌<◌, ◌^◌, ◌≡◌, arith}
use iccom_utils.Libiccom.{done, channel_verify}

pub channel_verify-in_range : (channel : ℕ) → channel < 2 ^ 16 → channel_verify channel ≡ done 0
unfolding channel_verify
channel_verify-in_range channel low = ground arith
