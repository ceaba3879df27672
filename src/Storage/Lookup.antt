-- ===== src/Storage/Lookup.antt =====
-- The lookup of a channel after an update of one.
use mathlib.Core.Option
use iccom_utils.Base.{ℕ, ◌≡◌, ◌≢◌, refl, ◌∙◌, List, [], ◌∷◌, false}
use iccom_utils.Base.{◌==◌, ==_ne, ==_iff, Bool-cases, inl, inr, sym}
use iccom_utils.Storage.{Channel, Storage, find_in, find_channel, update_in, update_channel}

find_in-update_in_self :
    (channel : ℕ) (f : Channel → Channel)
    → ((c : Channel) → (f c).channel ≡ c.channel)
    → (cs : List Channel)
    → find_in (update_in channel f cs) channel ≡ Option.map f (find_in cs channel)
unfolding find_in update_in
find_in-update_in_self channel f keeps [] = refl
find_in-update_in_self channel f keeps (c ∷ cs) = elim (Bool-cases (c.channel == channel)) [
  | inl e ↦ rw (e, keeps c, e) refl
  | inr e ↦ rw (e, e) (find_in-update_in_self channel f keeps cs)
]

find_in-update_in_ne :
    (channel : ℕ) (f : Channel → Channel)
    → ((c : Channel) → (f c).channel ≡ c.channel)
    → (cs : List Channel) (j : ℕ) → j ≢ channel
    → find_in (update_in channel f cs) j ≡ find_in cs j
unfolding find_in update_in
find_in-update_in_ne channel f keeps [] j ne = refl
find_in-update_in_ne channel f keeps (c ∷ cs) j ne = elim (Bool-cases (c.channel == channel)) [
  | inl e ↦
      let other : (c.channel == j) ≡ false =
        ==_ne c.channel j (λ h. ne (sym h ∙ (==_iff c.channel channel).0 e)) in
      rw (e, keeps c, other) refl
  | inr e ↦ rw (e, find_in-update_in_ne channel f keeps cs j ne) refl
]

-- An update that keeps the channel number shows in that channel.
pub find-update_self :
    (channel : ℕ) (f : Channel → Channel)
    → ((c : Channel) → (f c).channel ≡ c.channel)
    → (s : Storage)
    → find_channel (update_channel channel f s) channel ≡ Option.map f (find_channel s channel)
unfolding find_channel update_channel
find-update_self channel f keeps s = find_in-update_in_self channel f keeps s.channels

-- It shows in no other channel.
pub find-update_ne :
    (channel : ℕ) (f : Channel → Channel)
    → ((c : Channel) → (f c).channel ≡ c.channel)
    → (s : Storage) (j : ℕ) → j ≢ channel
    → find_channel (update_channel channel f s) j ≡ find_channel s j
unfolding find_channel update_channel
find-update_ne channel f keeps s j ne = find_in-update_in_ne channel f keeps s.channels j ne
