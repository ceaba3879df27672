-- ===== src/Storage.antt =====
-- driver/iccom.c, the storage of received messages: `struct iccom_message`,
-- `struct iccom_message_storage_channel`, `struct iccom_message_storage` and the lookups.
-- A pointer to a message or channel is the value found; an update through it is an update at
-- the place where the lookup stops. The storage's mutex makes each operation one step.
pub mod Lookup
pub mod Query
pub mod Update
pub mod Commit
pub mod Callback
pub mod Deliver
use iccom_utils.Base.{ℕ, List, [], ◌∷◌, Bool, true, false, Option, none, some, ◌&&◌}
use iccom_utils.Base.{◌==◌, if◌then◌else◌}

-- `content` is the memory of `data`, of which `length` bytes are in use; NULL is `[]`.
pub record Message : Type 0 where
  pub content : List ℕ
  pub length : ℕ
  pub channel : ℕ
  pub id : ℕ
  pub priority : ℕ
  pub finalized : Bool
  pub uncommitted_length : ℕ

-- A callback is named by its address, `none` for NULL; consumer data is an address, 0 for NULL.
pub record Channel : Type 0 where
  pub channel : ℕ
  pub messages : List Message
  pub current_last_message_id : ℕ
  pub consumer_callback_data : ℕ
  pub message_ready_callback : Option ℕ

pub record Storage : Type 0 where
  pub channels : List Channel
  pub message_ready_global_callback : Option ℕ
  pub global_consumer_data : ℕ
  pub uncommitted_finalized_count : ℕ

abbrev pub invalid_message_id : ℕ
invalid_message_id = 0

abbrev pub initial_message_id : ℕ
initial_message_id = 1

-- `ICCOM_ANY_CHANNEL_VALUE`, -1 as an `unsigned int`
abbrev pub any_channel_value : ℕ
any_channel_value = 0xFFFF_FFFF

unfoldable pub message_init : Message
message_init = record {
  content = [];
  length = 0;
  channel = 0;
  id = 0;
  priority = 0;
  finalized = false;
  uncommitted_length = 0;
}

pub message_is_ready : Message → Bool
message_is_ready m = m.finalized && m.uncommitted_length == 0

unfoldable pub find_in : List Channel → ℕ → Option Channel
find_in [] channel = none
find_in (c ∷ cs) channel = if c.channel == channel then some c else find_in cs channel

unfoldable pub find_channel : Storage → ℕ → Option Channel
find_channel s channel = find_in s.channels channel

pub find_message : List Message → ℕ → Option Message
find_message [] msg_id = none
find_message (m ∷ ms) msg_id = if m.id == msg_id then some m else find_message ms msg_id

pub find_message_in_channel : Option Channel → ℕ → Option Message
find_message_in_channel none msg_id = none
find_message_in_channel (some c) msg_id = find_message c.messages msg_id

-- An update through the pointer that `find_channel` returns.
pub update_in : ℕ → (Channel → Channel) → List Channel → List Channel
update_in channel f [] = []
update_in channel f (c ∷ cs) = if c.channel == channel then f c ∷ cs else c ∷ update_in channel f cs

pub update_channel : ℕ → (Channel → Channel) → Storage → Storage
update_channel channel f s = record s { channels = update_in channel f s.channels }

-- An update through the pointer that `find_message_in_channel` returns.
pub update_message : ℕ → (Message → Message) → List Message → List Message
update_message msg_id f [] = []
update_message msg_id f (m ∷ ms) =
    if m.id == msg_id then f m ∷ ms else m ∷ update_message msg_id f ms

pub last_message : List Message → Option Message
last_message [] = none
last_message (m ∷ []) = some m
last_message (m ∷ n ∷ ms) = last_message (n ∷ ms)

pub first_message : List Message → Option Message
first_message [] = none
first_message (m ∷ ms) = some m

pub first_ready : List Message → Option Message
first_ready [] = none
first_ready (m ∷ ms) = if message_is_ready m then some m else first_ready ms
