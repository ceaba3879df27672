-- ===== src/Storage/Update/Added.antt =====
-- What adding a channel does to the lookup of channels.
use iccom_utils.Base.{ℕ, ◌≡◌, ◌≢◌, refl, sym, arith, List, [], ◌∷◌, ◌++◌, true, false}
use iccom_utils.Base.{some, none, Bool-cases, inl, inr, ◌==◌, ==_refl, ==_ne, ◌⊎◌, Option-cases}
use iccom_utils.Kernel.{Memory, kmalloc_struct}
use iccom_utils.Storage.{Channel, Storage, find_channel, find_in}
use iccom_utils.Storage.Update.{add_channel, add_missing, new_channel}

find_in-append_self :
    (cs : List Channel) (channel : ℕ)
    → find_in cs channel ≡ none
    → find_in (cs ++ new_channel channel ∷ []) channel ≡ some (new_channel channel)
unfolding find_in new_channel
find_in-append_self [] channel e = rw (==_refl channel) refl
find_in-append_self (c ∷ cs) channel e = elim (Bool-cases (c.channel == channel)) [
  | inl here ↦ absurd (ground (arith, rw here at e))
  | inr there ↦ rw there (find_in-append_self cs channel (rw there at e))
]

find_in-append_ne :
    (cs : List Channel) (channel j : ℕ)
    → j ≢ channel
    → find_in (cs ++ new_channel channel ∷ []) j ≡ find_in cs j
unfolding find_in new_channel
find_in-append_ne [] channel j ne = rw (==_ne channel j (λ h. ne (sym h))) refl
find_in-append_ne (c ∷ cs) channel j ne = rw (find_in-append_ne cs channel j ne) refl

-- Adding a channel that is not there affects no other channel.
pub add_channel-ne :
    (s : Storage) (channel j : ℕ) (m : Memory)
    → find_channel s channel ≡ none
    → j ≢ channel
    → find_channel (add_channel s channel m).1 j ≡ find_channel s j
unfolding add_channel add_missing find_channel
add_channel-ne s channel j m e ne = elim (Bool-cases (kmalloc_struct m).0) [
  | inl granted ↦ rw (e, granted) (find_in-append_ne s.channels channel j ne)
  | inr refused ↦ rw (e, refused) refl
]

pub add_channel-global :
    (s : Storage) (channel : ℕ) (m : Memory)
    → (add_channel s channel m).1.message_ready_global_callback ≡ s.message_ready_global_callback
unfolding add_channel add_missing
add_channel-global s channel m = elim (Option-cases (find_channel s channel)) [
  | inr (c, e) ↦ rw e refl
  | inl e ↦ elim (Bool-cases (kmalloc_struct m).0) [
    | inl granted ↦ rw (e, granted) refl
    | inr refused ↦ rw (e, refused) refl
  ]
]

-- Either the channel is there afterwards, or nothing changes.
pub add_channel-cases :
    (s : Storage) (channel : ℕ) (m : Memory)
    → find_channel s channel ≡ none
    → (((add_channel s channel m).0 ≡ true)
        × ((c : Channel) × (find_channel (add_channel s channel m).1 channel ≡ some c)))
      ⊎ (((add_channel s channel m).0 ≡ false) × ((add_channel s channel m).1 ≡ s))
unfolding add_channel add_missing find_channel
add_channel-cases s channel m e = elim (Bool-cases (kmalloc_struct m).0) [
  | inl granted ↦ rw (e, granted) (inl (refl, (_, find_in-append_self s.channels channel e)))
  | inr refused ↦ rw (e, refused) (inr (refl, refl))
]
