-- ===== src/Storage/Callback/Install.antt =====
-- Installing a callback and asking for it.
use mathlib.Core.Option
use iccom_utils.Base.{ℕ, ◌≡◌, ◌≢◌, refl, ap, ap₂, ◌∙◌, sym, true, false, Option, some, none}
use iccom_utils.Base.{Bool-cases, if◌then◌else◌, Option-cases, inl, inr, ◌==◌, ==_iff, ==_ne, ◌⊎◌}
use iccom_utils.Kernel.{Status, ok, err, Errno, Memory}
use iccom_utils.Storage.{Channel, Storage, find_channel, update_channel, any_channel_value}
use iccom_utils.Storage.Lookup.{find-update_self, find-update_ne}
use iccom_utils.Storage.Update.{add_channel}
use iccom_utils.Storage.Update.Added.{add_channel-cases, add_channel-ne, add_channel-global}
use iccom_utils.Storage.Callback.{
  set_channel_callback, get_channel_callback, install_in, install_new, install, callback_of,
}

-- What is asked for after an installation that returned `r`, beside what was asked for before.
abbrev Installed : Storage → ℕ → Option ℕ → ℕ → Status × Storage × Memory → Type 0
Installed s channel callback j r =
    ((r.0 ≡ ok) × (get_channel_callback r.1 channel ≡ callback)
      ⊎ (r.0 ≡ err Errno.enomem) × (get_channel_callback r.1 channel ≡ none))
    × (get_channel_callback r.1 j ≡ get_channel_callback s j)

get_channel_callback-same :
    (s s' : Storage) (j : ℕ)
    → s'.message_ready_global_callback ≡ s.message_ready_global_callback
    → find_channel s' j ≡ find_channel s j
    → get_channel_callback s' j ≡ get_channel_callback s j
unfolding get_channel_callback
get_channel_callback-same s s' j e e' =
    ap₂ (λ o c. if j == any_channel_value then o else callback_of c) e e'

module _ (s : Storage) (channel j : ℕ) (callback : Option ℕ) (consumer_data : ℕ) (m : Memory)
    (one : channel == any_channel_value ≡ false) (ne : j ≢ channel) where
  -- A channel that is there.
  installed :
      (s' : Storage) (c : Channel)
      → find_channel s' channel ≡ some c
      → get_channel_callback (update_channel channel (install callback consumer_data) s') channel
        ≡ callback
  unfolding get_channel_callback install callback_of
  installed s' c e = rw one (
      ap callback_of (
        find-update_self channel (install callback consumer_data) (λ c. refl) s'
        ∙ ap (Option.map (install callback consumer_data)) e))

  in_place :
      (c : Channel)
      → find_channel s channel ≡ some c
      → Installed s channel callback j (install_in (some c) s channel callback consumer_data m)
  unfolding install_in install update_channel
  in_place c e = (
    inl (refl, installed s c e),
    get_channel_callback-same s (update_channel channel (install callback consumer_data) s) j refl
        (find-update_ne channel (install callback consumer_data) (λ c. refl) s j ne),
  )

install-keeps :
    (callback : Option ℕ) (consumer_data : ℕ) (c : Channel)
    → (install callback consumer_data c).channel ≡ c.channel
unfolding install
install-keeps callback consumer_data c = refl

update_channel-global :
    (channel : ℕ) (f : Channel → Channel) (s : Storage)
    → (update_channel channel f s).message_ready_global_callback ≡ s.message_ready_global_callback
unfolding update_channel
update_channel-global channel f s = refl

-- A channel that is not there has no callback.
get_channel_callback-missing :
    (s : Storage) (channel : ℕ)
    → channel == any_channel_value ≡ false
    → find_channel s channel ≡ none
    → get_channel_callback s channel ≡ none
unfolding get_channel_callback callback_of
get_channel_callback-missing s channel one e = rw one (ap callback_of e)

-- A channel that is not there yet.
in_new :
    (s : Storage) (channel j : ℕ) (callback : Option ℕ) (consumer_data : ℕ) (m : Memory)
    → channel == any_channel_value ≡ false
    → j ≢ channel
    → find_channel s channel ≡ none
    → Installed s channel callback j (install_new s channel callback consumer_data m)
unfolding install_new
in_new s channel j none consumer_data m one ne e =
    (inl (refl, get_channel_callback-missing s channel one e), refl)
in_new s channel j (some f) consumer_data m one ne e = elim (add_channel-cases s channel m e) [
  | inl (there, (c, found)) ↦ rw there (
    inl (refl, installed s channel j (some f) consumer_data m one ne added c found),
    get_channel_callback-same s (update_channel channel set added) j
        (update_channel-global channel set added ∙ add_channel-global s channel m)
        (find-update_ne channel set (install-keeps (some f) consumer_data) added j ne
          ∙ add_channel-ne s channel j m e ne),
  )
  | inr (there, same) ↦
      rw (there, same) (inr (refl, get_channel_callback-missing s channel one e), refl)
]
  where
    added : Storage
    added = (add_channel s channel m).1

    set : Channel → Channel
    set = install (some f) consumer_data

-- The callback for all channels.
for_all :
    (s : Storage) (channel j : ℕ) (callback : Option ℕ) (consumer_data : ℕ)
    → channel == any_channel_value ≡ true
    → j ≢ channel
    → let s' = record s {
      message_ready_global_callback = callback;
      global_consumer_data = consumer_data;
    } in
      ((ok ≡ ok) × (get_channel_callback s' channel ≡ callback)
        ⊎ (ok ≡ err Errno.enomem) × (get_channel_callback s' channel ≡ none))
      × (get_channel_callback s' j ≡ get_channel_callback s j)
unfolding get_channel_callback find_channel
for_all s channel j callback consumer_data any ne =
    let other : j == any_channel_value ≡ false =
      ==_ne j any_channel_value (λ h. ne (h ∙ sym ((==_iff channel any_channel_value).0 any))) in
    rw (any, other) (inl (refl, refl), refl)

-- Installing a callback for a channel, or for all channels, either succeeds, and asking for the
-- callback then gives the installed one (none for a removed one), or it returns -ENOMEM, and there
-- is none. What is asked for any other channel number stays the same.
pub set_channel_callback_lem :
    (s : Storage) (channel : ℕ) (callback : Option ℕ) (consumer_data : ℕ) (m : Memory) (j : ℕ)
    → j ≢ channel
    → let (status, s', m') = set_channel_callback s channel callback consumer_data m in
      ((status ≡ ok) × (get_channel_callback s' channel ≡ callback)
        ⊎ (status ≡ err Errno.enomem) × (get_channel_callback s' channel ≡ none))
      × (get_channel_callback s' j ≡ get_channel_callback s j)
unfolding set_channel_callback
set_channel_callback_lem s channel callback consumer_data m j ne =
    elim (Bool-cases (channel == any_channel_value)) [
      | inl any ↦ rw any (for_all s channel j callback consumer_data any ne)
      | inr one ↦ rw one (elim (Option-cases (find_channel s channel)) [
        | inl e ↦ rw e (in_new s channel j callback consumer_data m one ne e)
        | inr (c, e) ↦ rw e (in_place s channel j callback consumer_data m one ne c e)
      ])
    ]
