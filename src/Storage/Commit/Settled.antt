-- ===== src/Storage/Commit/Settled.antt =====
-- After a commit or a rollback nothing is left uncommitted.
use mathlib.Core.Option
use iccom_utils.Base.{
  ℕ, ◌++◌, refl, ap, true, ◌==◌, Bool-cases, inl, inr, take, ◌≡◌, arith, List, [], ◌∷◌, map, All,
}
use iccom_utils.Storage.{Message, Channel, Storage, find_channel, find_in, message_is_ready}
use iccom_utils.Storage.Commit.{
  rollback, commit, rollback_message, commit_message, channel_rollback, channel_commit,
}

All-map {ℓ κ} :
    {A : Type ℓ} (P : A → Type κ) (f : A → A)
    → ((a : A) → P (f a))
    → (xs : List A) → All P (map f xs)
All-map P f h [] = tt
All-map P f h (x ∷ xs) = (h x, All-map P f h xs)

map-append :
    (f : Message → Message) (before : List Message) (m : Message)
    → map f (before ++ m ∷ []) ≡ map f before ++ f m ∷ []
map-append f [] m = refl
map-append f (n ∷ before) m = ap (λ ms. f n ∷ ms) (map-append f before m)

-- No message holds data of a package that is neither committed nor rolled back.
abbrev pub IsCommitted : Storage → Type 0
IsCommitted s =
    All (λ (c : Channel). All (λ (m : Message). m.uncommitted_length ≡ 0) c.messages) s.channels

rollback_message-committed : (m : Message) → (rollback_message m).uncommitted_length ≡ 0
unfolding rollback_message
rollback_message-committed m = ground arith

commit_message-committed : (m : Message) → (commit_message m).uncommitted_length ≡ 0
unfolding commit_message
commit_message-committed m = ground arith

pub rollback-IsCommitted : (s : Storage) → IsCommitted (rollback s)
unfolding rollback channel_rollback
rollback-IsCommitted s =
    All-map _ channel_rollback
      (λ c. All-map _ rollback_message rollback_message-committed c.messages) s.channels

pub commit-IsCommitted : (s : Storage) → IsCommitted (commit s)
unfolding commit channel_commit
commit-IsCommitted s =
    All-map _ channel_commit (λ c. All-map _ commit_message commit_message-committed c.messages)
      s.channels

find_in-commit :
    (cs : List Channel) (channel : ℕ)
    → find_in (map channel_commit cs) channel ≡ Option.map channel_commit (find_in cs channel)
unfolding find_in channel_commit
find_in-commit [] channel = refl
find_in-commit (c ∷ cs) channel = elim (Bool-cases (c.channel == channel)) [
  | inl e ↦ rw e refl
  | inr e ↦ rw e (find_in-commit cs channel)
]

-- A commit changes a channel in its place.
pub find-commit :
    (s : Storage) (channel : ℕ)
    → find_channel (commit s) channel ≡ Option.map channel_commit (find_channel s channel)
unfolding find_channel commit
find-commit s channel = find_in-commit s.channels channel

pub channel_commit-messages :
    (c : Channel) (before : List Message) (m : Message)
    → channel_commit (record c { messages = before ++ m ∷ [] })
      ≡ record c { messages = map commit_message before ++ commit_message m ∷ [] }
unfolding channel_commit
channel_commit-messages c before m =
    ap (λ ms. record c { messages = ms }) (map-append commit_message before m)

-- A finished message is ready once it is committed.
pub commit_message-ready :
    (m : Message) → m.finalized ≡ true → message_is_ready (commit_message m) ≡ true
unfolding commit_message message_is_ready
commit_message-ready m e = elim (Bool-cases (m.uncommitted_length == 0)) [
  | inl none_left ↦ rw (none_left, e, none_left) refl
  | inr some_left ↦ rw (some_left, e) refl
]

pub commit_message-bytes :
    (m : Message)
    → take (commit_message m).length (commit_message m).content ≡ take m.length m.content
unfolding commit_message
commit_message-bytes m = elim (Bool-cases (m.uncommitted_length == 0)) [
  | inl none_left ↦ rw none_left refl
  | inr some_left ↦ rw some_left refl
]
