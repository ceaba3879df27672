-- ===== src/Storage/Query.antt =====
-- driver/iccom.c, the storage operations that look a message up, and those that pop one.
pub mod Last
pub mod Pop
use iccom_utils.Base.{ℕ, List, [], ◌∷◌, Bool, true, false, Option, none, some}
use iccom_utils.Base.{◌==◌, if◌then◌else◌}
use iccom_utils.Storage.{Message, Channel, Storage, message_is_ready, find_channel, update_channel}
use iccom_utils.Storage.{
  find_message, find_message_in_channel, last_message, first_message, first_ready,
}

pub get_message : Storage → ℕ → ℕ → Option Message
get_message s channel msg_id = find_message_in_channel (find_channel s channel) msg_id

-- The lookups go on only where the channel exists.
last_in : Option Channel → Option Message
last_in none = none
last_in (some c) = last_message c.messages

pub get_last_message : Storage → ℕ → Option Message
unfolding last_in
get_last_message s channel = last_in (find_channel s channel)

unless_finalized : Option Message → Option Message
unless_finalized none = none
unless_finalized (some m) = if m.finalized then none else some m

pub get_last_unfinalized_message : Storage → ℕ → Option Message
unfolding unless_finalized last_in
get_last_unfinalized_message s channel = unless_finalized (last_in (find_channel s channel))

pub get_first_message : Storage → ℕ → Option Message
get_first_message s channel = elim (find_channel s channel) [
  | none ↦ none
  | some c ↦ first_message c.messages
]

pub first_ready_in : Option Channel → Option Message
first_ready_in none = none
first_ready_in (some c) = first_ready c.messages

pub get_first_ready_message : Storage → ℕ → Option Message
get_first_ready_message s channel = first_ready_in (find_channel s channel)

-- `list_del` of the first ready message.
pub remove_first_ready : List Message → List Message
remove_first_ready [] = []
remove_first_ready (m ∷ ms) = if message_is_ready m then ms else m ∷ remove_first_ready ms

pub pop_first_ready_message : Storage → ℕ → Option Message × Storage
pop_first_ready_message s channel = (
  get_first_ready_message s channel,
  update_channel channel (λ c. record c { messages = remove_first_ready c.messages }) s,
)

-- `list_del` of the message that the lookup finds.
pub remove_message : ℕ → List Message → List Message
remove_message msg_id [] = []
remove_message msg_id (m ∷ ms) = if m.id == msg_id then ms else m ∷ remove_message msg_id ms

pub pop_message : Storage → ℕ → ℕ → Option Message × Storage
pop_message s channel msg_id = (
  get_message s channel msg_id,
  update_channel channel (λ c. record c { messages = remove_message msg_id c.messages }) s,
)
