-- ===== src/Storage/Update.antt =====
-- driver/iccom.c, the storage operations that add, extend and remove messages and channels.
pub mod Added
pub mod Append
pub mod Garbage
use Prim.Native.Nat.{◌+◌, ◌%◌, ◌^◌}
use iccom_utils.Base.{ℕ, List, [], ◌∷◌, ◌++◌, Bool, true, false, Option, none, some, ◌&&◌}
use iccom_utils.Base.{◌==◌, if◌then◌else◌, take}
use iccom_utils.Kernel.{Status, ok, err, Errno, Memory, kmalloc, kmalloc_struct}
use iccom_utils.Storage.{Message, Channel, Storage, invalid_message_id, initial_message_id}
use iccom_utils.Storage.{message_init, find_channel, find_message_in_channel}
use iccom_utils.Storage.{update_channel, update_message}
use iccom_utils.Storage.Query.{get_message}

new_channel : ℕ → Channel
new_channel channel = record {
  channel = channel;
  messages = [];
  current_last_message_id = invalid_message_id;
  consumer_callback_data = 0;
  message_ready_callback = none;
}

-- With what the lookup finds, and whether the allocation succeeds.
add_missing : Option Channel → Bool → Storage → ℕ → Memory → Memory → Bool × Storage × Memory
unfolding new_channel
add_missing (some c) granted s channel m m' = (true, s, m)
add_missing none true s channel m m' =
    (true, record s { channels = s.channels ++ new_channel channel ∷ [] }, m')
add_missing none false s channel m m' = (false, s, m')

-- The flag tells whether the channel is there, that is, whether the result is not NULL.
pub add_channel : Storage → ℕ → Memory → Bool × Storage × Memory
unfolding add_missing
add_channel s channel m =
    let (granted, m') = kmalloc_struct m in
    add_missing (find_channel s channel) granted s channel m m'

-- `current_last_message_id + 1` of an `unsigned int`, where 0 is replaced.
next_msg_id : List Message → ℕ → ℕ
next_msg_id [] current = initial_message_id
next_msg_id (m ∷ ms) current =
    let next = (current + 1) % 2 ^ 32 in if next == 0 then initial_message_id else next

pub allocate_next_msg_id : Storage → ℕ → ℕ × Storage
unfolding next_msg_id
allocate_next_msg_id s channel = elim (find_channel s channel) [
  | none ↦ (initial_message_id, s)
  | some c ↦
      let next = next_msg_id c.messages c.current_last_message_id in
      (next, update_channel channel (λ c. record c { current_last_message_id = next }) s)
]

-- `msg->id = …` for the message at the tail of the list.
set_last_id : ℕ → List Message → List Message
set_last_id id [] = []
set_last_id id (m ∷ []) = record m { id = id } ∷ []
set_last_id id (m ∷ n ∷ ms) = m ∷ set_last_id id (n ∷ ms)

-- `list_add_tail` and the assignment of the message's ID.
put_message : Storage → Message → ℕ × Storage
unfolding set_last_id
put_message s msg =
    let s₁ = update_channel msg.channel (λ c. record c { messages = c.messages ++ msg ∷ [] }) s in
    let (id, s₂) = allocate_next_msg_id s₁ msg.channel in
    (id, update_channel msg.channel (λ c. record c { messages = set_last_id id c.messages }) s₂)

-- Returns the ID that the message has afterwards beside the status.
pub push_message : Storage → Message → Memory → Status × ℕ × Storage × Memory
unfolding put_message
push_message s msg m =
    let (there, s', m') = add_channel s msg.channel m in
    let (id, s'') = put_message s' msg in
    if there
    then elim (find_message_in_channel (find_channel s' msg.channel) msg.id) [
      | some old ↦ (err Errno.ealready, msg.id, s', m')
      | none ↦ (ok, id, s'', m')
    ]
    else (err Errno.enomem, msg.id, s', m')

-- The new memory holds the bytes in use and then the new ones.
unfoldable pub extend : List ℕ → ℕ → Bool → Message → Message
extend new_data new_data_length final msg = record msg {
  content = take msg.length msg.content ++ take new_data_length new_data;
  length = msg.length + new_data_length;
  uncommitted_length = new_data_length;
  finalized = if final then true else msg.finalized;
}

-- With the new memory, `none` if it was refused.
store_in :
    Option (List ℕ) → Storage → ℕ → ℕ → List ℕ → ℕ → Bool → Memory → Status × Storage × Memory
unfolding extend
store_in none s channel msg_id new_data new_data_length final m = (err Errno.enomem, s, m)
store_in (some new_store) s channel msg_id new_data new_data_length final m =
    let extended =
      update_channel channel
        (λ c. record c {
          messages = update_message msg_id (extend new_data new_data_length final) c.messages;
        })
        s in
    (
      ok,
      record extended {
        uncommitted_finalized_count =
            if final then s.uncommitted_finalized_count + 1 else s.uncommitted_finalized_count;
      },
      m,
    )

-- With the message that the lookup finds.
append_to :
    Option Message → Storage → ℕ → ℕ → List ℕ → ℕ → Bool → Memory → Status × Storage × Memory
unfolding store_in
append_to none s channel msg_id new_data new_data_length final m = (err Errno.ebadf, s, m)
append_to (some msg) s channel msg_id new_data new_data_length final m =
    let (store, m') = kmalloc (msg.length + new_data_length) m in
    if msg.finalized
    then (err Errno.eacces, s, m)
    else store_in store s channel msg_id new_data new_data_length final m'

pub append_data_to_message :
    Storage → ℕ → ℕ → List ℕ → ℕ → Bool → Memory → Status × Storage × Memory
unfolding append_to
append_data_to_message s channel msg_id new_data new_data_length final m =
    append_to (get_message s channel msg_id) s channel msg_id new_data new_data_length final m

unfoldable pub list_empty : List Message → Bool
list_empty [] = true
list_empty (m ∷ ms) = false

is_null : Option ℕ → Bool
is_null none = true
is_null (some f) = false

unfoldable pub channel_has_no_data : Channel → Bool
unfolding list_empty is_null
channel_has_no_data c =
    list_empty c.messages && c.consumer_callback_data == 0 && is_null c.message_ready_callback

collect : List Channel → List Channel
collect [] = []
collect (c ∷ cs) = if channel_has_no_data c then collect cs else c ∷ collect cs

pub collect_garbage : Storage → Storage
unfolding collect
collect_garbage s = record s { channels = collect s.channels }

remove_first : ℕ → List Channel → List Channel
remove_first channel [] = []
remove_first channel (c ∷ cs) = if c.channel == channel then cs else c ∷ remove_first channel cs

pub remove_channel : Storage → ℕ → Storage
unfolding remove_first
remove_channel s channel = record s { channels = remove_first channel s.channels }

pub storage_init : Storage
storage_init = record {
  channels = [];
  message_ready_global_callback = none;
  global_consumer_data = 0;
  uncommitted_finalized_count = 0;
}

pub storage_clear : Storage → Storage
storage_clear s = record s {
  channels = [];
  uncommitted_finalized_count = 0;
  message_ready_global_callback = none;
  global_consumer_data = 0;
}

-- `__iccom_construct_message_in_storage`: the new message, or `none` for NULL.
pub construct_message : Storage → ℕ → Memory → Option Message × Storage × Memory
construct_message s channel m =
    let (granted, m₁) = kmalloc_struct m in
    let msg = record message_init { channel = channel } in
    let (status, id, s', m₂) = push_message s msg m₁ in
    if granted
    then elim status [ ok ↦ (some (record msg { id = id }), s', m₂) | err e ↦ (none, s', m₂) ]
    else (none, s, m₁)
