-- ===== src/Storage/Update/Garbage.antt =====
-- `iccom_msg_storage_collect_garbage`: what it keeps and what it removes.
use iccom_utils.Base.{ℕ, ◌≡◌, sym, subst, ap, arith, List, [], ◌∷◌, false, some, All}
use iccom_utils.Base.{Bool-cases, inl, inr, ◌==◌}
use iccom_utils.Storage.{Channel, Storage, find_channel, find_in}
use iccom_utils.Storage.Update.{collect_garbage, collect, channel_has_no_data}

find_in-collect :
    (cs : List Channel) (channel : ℕ) (c : Channel)
    → find_in cs channel ≡ some c
    → channel_has_no_data c ≡ false
    → find_in (collect cs) channel ≡ some c
unfolding find_in collect
find_in-collect [] channel c found kept = absurd (ground (arith, found))
find_in-collect (d ∷ cs) channel c found kept = elim (Bool-cases (d.channel == channel)) [
  | inl here ↦
      let same : d ≡ c = some_inj (rw here at found) in
      rw (subst (λ x. channel_has_no_data x ≡ false) (sym same) kept, here) (ap (λ x. some x) same)
  | inr there ↦
      let later = find_in-collect cs channel c (rw there at found) kept in
      elim (Bool-cases (channel_has_no_data d)) [
        | inl empty ↦ rw empty later
        | inr full ↦ rw (full, there) later
      ]
]
  where
    some_inj : {x y : Channel} → some x ≡ some y → x ≡ y
    some_inj h = cc h

collect-full :
    (cs : List Channel) → All (λ (c : Channel). channel_has_no_data c ≡ false) (collect cs)
unfolding collect
collect-full [] = tt
collect-full (c ∷ cs) = elim (Bool-cases (channel_has_no_data c)) [
  | inl empty ↦ rw empty (collect-full cs)
  | inr full ↦ rw full (full, collect-full cs)
]

-- Collecting garbage leaves a channel that has messages or a consumer exactly as it is, under its
-- number, and every channel that is left has messages or a consumer.
pub collect_garbage_lem :
    (s : Storage) (channel : ℕ) (c : Channel)
    → find_channel s channel ≡ some c
    → channel_has_no_data c ≡ false
    → (find_channel (collect_garbage s) channel ≡ some c)
      × All (λ (d : Channel). channel_has_no_data d ≡ false) (collect_garbage s).channels
unfolding collect_garbage find_channel
collect_garbage_lem s channel c found kept =
    (find_in-collect s.channels channel c found kept, collect-full s.channels)
