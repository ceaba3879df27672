-- ===== src/Storage/Query/Pop.antt =====
-- Popping the oldest ready message.
use iccom_utils.Base.{ℕ, ◌≡◌, refl, List, [], ◌∷◌, ◌++◌, true, false, Option, some, none, All}
use iccom_utils.Base.{ap, Bool-cases, ◌⊎◌, ◌≢◌, ◌∙◌, inl, inr}
use mathlib.Core.Option
use iccom_utils.Storage.{Message, Channel, Storage, message_is_ready, first_ready, find_channel}
use iccom_utils.Storage.Lookup.{find-update_self, find-update_ne}
use iccom_utils.Storage.Query.{
  remove_first_ready, pop_first_ready_message, get_first_ready_message, first_ready_in,
}

abbrev pub IsWaiting : Message → Type 0
IsWaiting m = message_is_ready m ≡ false

-- Either no message is ready and the list stays as it is, or the message handed out is the oldest
-- ready one and exactly that one is removed.
pub first_ready-cases :
    (ms : List Message)
    → ((first_ready ms ≡ none) × (remove_first_ready ms ≡ ms) × All IsWaiting ms)
      ⊎ ((before : List Message) × (m : Message) × (behind : List Message) × (first_ready ms
            ≡ some m)
          × (message_is_ready m ≡ true)
          × All IsWaiting before
          × (ms ≡ before ++ m ∷ behind)
          × (remove_first_ready ms ≡ before ++ behind))
unfolding first_ready remove_first_ready
first_ready-cases [] = inl (refl, refl, tt)
first_ready-cases (m ∷ ms) = elim (Bool-cases (message_is_ready m)) [
  | inl ready ↦ rw ready (inr ([], m, ms, refl, ready, tt, refl, refl))
  | inr waiting ↦ rw waiting (elim (first_ready-cases ms) [
    | inl (e, e', all) ↦ inl (e, ap (λ t. m ∷ t) e', (refl, all))
    | inr (before, n, behind, e, ready, all, e', e'') ↦
        inr
          (m ∷ before, n, behind, e, ready, (waiting, all), ap (λ t. m ∷ t) e', ap (λ t. m ∷ t) e'')
  ])
]

-- Popping from a channel that exists: if nothing is handed out, no message of the channel is ready
-- and the channel is unchanged; otherwise the oldest ready message is handed out, it is removed
-- from its place, and the rest of the channel is unchanged. Any other channel stays as it is.
pub pop_first_ready_message_lem :
    (s : Storage) (channel : ℕ) (c : Channel) (j : ℕ)
    → find_channel s channel ≡ some c
    → j ≢ channel
    → let (popped, s') = pop_first_ready_message s channel in
      (((popped ≡ none) × All IsWaiting c.messages × (find_channel s' channel ≡ some c))
        ⊎ ((before : List Message) × (m : Message) × (behind : List Message) × (popped ≡ some m)
            × (message_is_ready m ≡ true)
            × All IsWaiting before
            × (c.messages ≡ before ++ m ∷ behind)
            × (find_channel s' channel ≡ some (record c { messages = before ++ behind }))))
      × (find_channel s' j ≡ find_channel s j)
unfolding pop_first_ready_message get_first_ready_message first_ready_in
pop_first_ready_message_lem s channel c j found ne =
    (here, find-update_ne channel cut (λ c. refl) s j ne)
  where
    cut : Channel → Channel
    cut c = record c { messages = remove_first_ready c.messages }

    found' :
        find_channel (pop_first_ready_message s channel).1 channel
        ≡ some (record c { messages = remove_first_ready c.messages })
    found' = find-update_self channel cut (λ c. refl) s ∙ ap (Option.map cut) found

    with_messages : List Message → Option Channel
    with_messages ms = some (record c { messages = ms })

    here :
        (((pop_first_ready_message s channel).0 ≡ none)
          × All IsWaiting c.messages
          × (find_channel (pop_first_ready_message s channel).1 channel ≡ some c))
        ⊎ ((before : List Message) × (m : Message) × (behind : List Message)
            × ((pop_first_ready_message s channel).0 ≡ some m)
            × (message_is_ready m ≡ true)
            × All IsWaiting before
            × (c.messages ≡ before ++ m ∷ behind)
            × (find_channel (pop_first_ready_message s channel).1 channel
                ≡ some (record c { messages = before ++ behind })))
    here = elim (first_ready-cases c.messages) [
      | inl (e, e', all) ↦
          inl (ap first_ready_in found ∙ e, all, found' ∙ ap (λ ms. with_messages ms) e')
      | inr (before, m, behind, e, ready, all, e', e'') ↦ inr (
        before,
        m,
        behind,
        ap first_ready_in found ∙ e,
        ready,
        all,
        e',
        found' ∙ ap (λ ms. with_messages ms) e'',
      )
    ]
