-- ===== src/Storage/Update/Append.antt =====
-- Appending data to the last message of a channel.
use mathlib.Core.Option
use iccom_utils.Base.{ℕ, ◌+◌, ◌≡◌, ◌≢◌, refl, ap, ◌∙◌, List, [], ◌∷◌, ◌++◌, Bool, false}
use iccom_utils.Base.{Option, some, if◌then◌else◌}
use iccom_utils.Kernel.{ok, kmalloc}
use iccom_utils.Storage.{Message, Channel, Storage, find_channel, update_message}
use iccom_utils.Storage.Lookup.{find-update_self, find-update_ne}
use iccom_utils.Storage.Query.Last.{IsFresh, get_message-last, update_message-last}
use iccom_utils.Storage.Update.{append_data_to_message, append_to, store_in, extend}

-- With memory, data goes to the end of an unfinished last message with an ID of its own, and
-- nothing else changes but the count of messages that were finished.
pub append_data-last :
    (s : Storage) (c : Channel) (before : List Message) (m : Message) (j : ℕ) (channel : ℕ)
    (data' : List ℕ) (n : ℕ) (final : Bool)
    → find_channel s channel ≡ some c
    → c.messages ≡ before ++ m ∷ []
    → IsFresh m.id before
    → m.finalized ≡ false
    → j ≢ channel
    → (s' : Storage) × (append_data_to_message s channel m.id data' n final [] ≡ (ok, s', []))
      × (find_channel s' channel
          ≡ some (record c { messages = before ++ extend data' n final m ∷ [] }))
      × (find_channel s' j ≡ find_channel s j)
      × (s'.uncommitted_finalized_count
          ≡ (if final then s.uncommitted_finalized_count + 1 else s.uncommitted_finalized_count))
unfolding append_data_to_message append_to store_in kmalloc find_channel
append_data-last s c before m j channel data' n final found shape fresh unfinished ne = (
  s',
  rw (get_message-last s channel c before m found shape fresh, unfinished) refl,
  find-update_self channel f (λ c. refl) s
      ∙ ap (Option.map f) found
      ∙ ap with_messages (
          ap (update_message m.id (extend data' n final)) shape
          ∙ update_message-last (extend data' n final) before m fresh),
  find-update_ne channel f (λ c. refl) s j ne,
  refl,
)
  where
    s' : Storage
    s' = (store_in (some []) s channel m.id data' n final []).1

    f : Channel → Channel
    f c = record c { messages = update_message m.id (extend data' n final) c.messages }

    with_messages : List Message → Option Channel
    with_messages ms = some (record c { messages = ms })
