-- ===== src/Storage/Deliver.antt =====
-- driver/iccom.c, the delivery of ready messages to the consumer. The storage is unlocked while a
-- callback runs, and other contexts may add messages to the channel. That they finish a message
-- which is there already is left out.
pub mod Fifo
use iccom_utils.Base.{ℕ, ◌+◌, List, [], ◌∷◌, ◌++◌, Bool, not, Option, none, some}
use iccom_utils.Base.{if◌then◌else◌, take}
use iccom_utils.Storage.{Message, Channel, Storage, message_is_ready}

-- One call of a consumer's callback, and whether the data is freed behind it.
pub record Notification : Type 0 where
  pub callback : ℕ
  pub channel : ℕ
  pub msg_data : List ℕ
  pub msg_len : ℕ
  pub consumer_data : ℕ
  pub data_freed : Bool

-- What a callback returns for a message of a channel: whether the consumer owns the data.
abbrev pub Ownership : Type 0
Ownership = ℕ → Message → Bool

pub notify : Ownership → ℕ → ℕ → ℕ → Message → Notification
notify owned callback consumer_data channel m = record {
  callback = callback;
  channel = channel;
  msg_data = take m.length m.content;
  msg_len = m.length;
  consumer_data = consumer_data;
  data_freed = not (owned channel m);
}

-- The loop while nothing is added: the calls made, and the messages that stay. A notified message
-- is removed, whatever the callback returns, and the loop goes on behind its predecessor.
pub pass_rest : Ownership → ℕ → ℕ → ℕ → List Message → List Notification × List Message
pass_rest owned callback consumer_data channel [] = ([], [])
pass_rest owned callback consumer_data channel (m ∷ ms) =
    let (calls, kept) = pass_rest owned callback consumer_data channel ms in
    if message_is_ready m
    then (notify owned callback consumer_data channel m ∷ calls, kept)
    else (calls, m ∷ kept)

-- The messages before the first ready one, this one, and those behind it.
pub next_ready : List Message → List Message × Option (Message × List Message)
next_ready [] = ([], none)
next_ready (m ∷ ms) =
    let (skipped, found) = next_ready ms in
    if message_is_ready m then ([], some (m, ms)) else (m ∷ skipped, found)

-- The messages that other contexts add to a channel while the storage is unlocked: during the
-- first call of the callback, during the second one, and so on. Only the loop removes messages.
abbrev pub Arrivals : Type 0
Arrivals = List (List Message)

-- The call for the message that was found, and the rest of the loop.
pub pass_found :
    (Message → Notification)
    → List Message
    → Option (Message × List Message)
    → (List Message → List Notification × List Message)
    → List Notification × List Message
pass_found call skipped none further = ([], skipped)
pass_found call skipped (some (m, rest)) further =
    let (calls, kept) = further rest in (call m ∷ calls, skipped ++ kept)

-- The loop over the messages of a channel.
pub pass_messages :
    Ownership → ℕ → ℕ → ℕ → Arrivals → List Message → List Notification × List Message
unfolding pass_found
pass_messages owned callback consumer_data channel [] ms =
    pass_rest owned callback consumer_data channel ms
pass_messages owned callback consumer_data channel (added ∷ later) ms =
    let (skipped, found) = next_ready ms in
    pass_found (notify owned callback consumer_data channel) skipped found
      (λ rest. pass_messages owned callback consumer_data channel later (rest ++ added))

-- The channel's own callback, else the global one, else none.
unfoldable pub consumer_of : Storage → Channel → Option (ℕ × ℕ)
consumer_of s c = elim c.message_ready_callback [
  | some f ↦ some (f, c.consumer_callback_data)
  | none ↦ elim s.message_ready_global_callback [
    | some g ↦ some (g, s.global_consumer_data)
    | none ↦ none
  ]
]

-- The messages of a channel go to this consumer, with its data.
pass_to : Ownership → Arrivals → Option (ℕ × ℕ) → Channel → List Notification × Channel
pass_to owned arrivals none c = ([], c)
pass_to owned arrivals (some (f, consumer_data)) c =
    let (calls, kept) = pass_messages owned f consumer_data c.channel arrivals c.messages in
    (calls, record c { messages = kept })

-- The number of messages processed is the number of calls.
pub pass_channel_to_consumer :
    Ownership → Arrivals → Storage → Channel → List Notification × Channel
unfolding pass_to
pass_channel_to_consumer owned arrivals s c = pass_to owned arrivals (consumer_of s c) c

pass_channels :
    Ownership → (ℕ → Arrivals) → Storage → List Channel → List Notification × List Channel
pass_channels owned arrivals s [] = ([], [])
pass_channels owned arrivals s (c ∷ cs) =
    let (calls, c') = pass_channel_to_consumer owned (arrivals c.channel) s c in
    let (later, cs') = pass_channels owned arrivals s cs in (calls ++ later, c' ∷ cs')

pub pass_ready_data_to_consumer : Ownership → (ℕ → Arrivals) → Storage → List Notification × Storage
unfolding pass_channels
pass_ready_data_to_consumer owned arrivals s =
    let (calls, cs) = pass_channels owned arrivals s s.channels in
    (calls, record s { channels = cs })
