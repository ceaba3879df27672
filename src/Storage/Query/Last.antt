-- ===== src/Storage/Query/Last.antt =====
-- The last message of a channel, under an ID that no other message has.
use iccom_utils.Base.{ℕ, ◌≡◌, ◌≢◌, refl, ap, ◌∙◌, List, [], ◌∷◌, ◌++◌, false, All}
use iccom_utils.Base.{some, ==_refl, ==_ne}
use iccom_utils.Storage.{
  Message, Channel, Storage, find_channel, find_message, update_message, last_message,
  find_message_in_channel,
}
use iccom_utils.Storage.Query.{get_message, get_last_unfinalized_message, unless_finalized, last_in}

-- An ID that no message of a list has.
abbrev pub IsFresh : ℕ → List Message → Type 0
IsFresh id ms = All (λ (m : Message). m.id ≢ id) ms

pub find_message-last :
    (before : List Message) (m : Message)
    → IsFresh m.id before
    → find_message (before ++ m ∷ []) m.id ≡ some m
unfolding find_message
find_message-last [] m fresh = rw (==_refl m.id) refl
find_message-last (n ∷ before) m (ne, fresh) =
    rw (==_ne n.id m.id ne) (find_message-last before m fresh)

pub update_message-last :
    (f : Message → Message) (before : List Message) (m : Message)
    → IsFresh m.id before
    → update_message m.id f (before ++ m ∷ []) ≡ before ++ f m ∷ []
unfolding update_message
update_message-last f [] m fresh = rw (==_refl m.id) refl
update_message-last f (n ∷ before) m (ne, fresh) =
    rw (==_ne n.id m.id ne, update_message-last f before m fresh) refl

pub last_message-last :
    (before : List Message) (m : Message) → last_message (before ++ m ∷ []) ≡ some m
unfolding last_message
last_message-last [] m = refl
last_message-last (n ∷ []) m = refl
last_message-last (n ∷ o ∷ before) m = last_message-last (o ∷ before) m

module _ (s : Storage) (channel : ℕ) (c : Channel) (before : List Message) (m : Message)
    (found : find_channel s channel ≡ some c) (shape : c.messages ≡ before ++ m ∷ []) where
  pub get_message-last : IsFresh m.id before → get_message s channel m.id ≡ some m
  unfolding get_message find_message_in_channel
  get_message-last fresh =
      ap (λ o. find_message_in_channel o m.id) found
      ∙ ap (λ ms. find_message ms m.id) shape
      ∙ find_message-last before m fresh

  pub get_last_unfinalized-last :
      m.finalized ≡ false → get_last_unfinalized_message s channel ≡ some m
  unfolding get_last_unfinalized_message unless_finalized last_in
  get_last_unfinalized-last unfinished =
      ap (λ o. unless_finalized (last_in o)) found
      ∙ ap (λ ms. unless_finalized (last_message ms)) shape
      ∙ ap unless_finalized (last_message-last before m)
      ∙ rw unfinished refl
