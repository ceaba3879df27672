-- ===== src/Storage/Deliver/Fifo.antt =====
-- Delivery to a consumer: which messages are handed over, in which order, and which stay.
use iccom_utils.Base.{
  ℕ, zero, suc, ◌∙◌, ◌≡◌, refl, List, [], ◌∷◌, ◌++◌, map, ap, sym, subst, ◌⊎◌, append_assoc,
  append-nil, take, length, Bool, true, false, none, some,
}
use iccom_utils.Base.{if◌then◌else◌, Bool-cases, inl, inr}
use iccom_utils.Storage.{Message, Channel, Storage, message_is_ready}
use iccom_utils.Storage.Deliver.{
  Notification, Ownership, Arrivals, notify, pass_rest, next_ready, pass_found, pass_messages,
  pass_channel_to_consumer,
}
use iccom_utils.Storage.Deliver.{consumer_of}

-- The messages whose readiness is `b`, in order.
abbrev pub select : Bool → List Message → List Message
select b [] = []
select true (m ∷ ms) = if message_is_ready m then m ∷ select true ms else select true ms
select false (m ∷ ms) = if message_is_ready m then select false ms else m ∷ select false ms

pass_rest_lem :
    (owned : Ownership) (callback consumer_data channel : ℕ) (ms : List Message)
    → pass_rest owned callback consumer_data channel ms
      ≡ (map (notify owned callback consumer_data channel) (select true ms), select false ms)
unfolding pass_rest
pass_rest_lem owned callback consumer_data channel [] = refl
pass_rest_lem owned callback consumer_data channel (m ∷ ms) =
    elim (Bool-cases (message_is_ready m)) [
      | inl ready ↦ rw (ready, pass_rest_lem owned callback consumer_data channel ms) refl
      | inr waiting ↦ rw (waiting, pass_rest_lem owned callback consumer_data channel ms) refl
    ]

select-append : (b : Bool) (xs ys : List Message) → select b (xs ++ ys) ≡ select b xs ++ select b ys
select-append true [] ys = refl
select-append false [] ys = refl
select-append true (m ∷ xs) ys = elim (Bool-cases (message_is_ready m)) [
  | inl ready ↦ rw (ready, select-append true xs ys) refl
  | inr waiting ↦ rw (waiting, select-append true xs ys) refl
]
select-append false (m ∷ xs) ys = elim (Bool-cases (message_is_ready m)) [
  | inl ready ↦ rw (ready, select-append false xs ys) refl
  | inr waiting ↦ rw (waiting, select-append false xs ys) refl
]

-- No message of the list is ready.
AllWait : List Message → Type 0
AllWait ms = (select true ms ≡ []) × (select false ms ≡ ms)

next_ready_lem :
    (ms : List Message)
    → let (skipped, found) = next_ready ms in
      AllWait skipped
      × (((found ≡ none) × (skipped ≡ ms))
          ⊎ ((m : Message) × (rest : List Message) × (found ≡ some (m, rest))
              × (message_is_ready m ≡ true)
              × (ms ≡ skipped ++ m ∷ rest)))
unfolding next_ready AllWait
next_ready_lem [] = ((refl, refl), inl (refl, refl))
next_ready_lem (m ∷ ms) = elim (Bool-cases (message_is_ready m)) [
  | inl ready ↦ rw ready ((refl, refl), inr (m, ms, refl, ready, refl))
  | inr waiting ↦
      let ((none_ready, all), found) = next_ready_lem ms in
      rw (waiting, waiting)
        (
          (none_ready, ap (λ t. m ∷ t) all),
          elim found [
            | inl (e, same) ↦ inl (e, ap (λ t. m ∷ t) same)
            | inr (m', rest, e, ready, same) ↦ inr (m', rest, e, ready, ap (λ t. m ∷ t) same)
          ],
        )
]

-- What arrives during the calls.
abbrev pub arrived : Arrivals → List Message
arrived [] = []
arrived (added ∷ later) = added ++ arrived later

all_wait : (ms : List Message) → AllWait ms → (select true ms ≡ []) × (select false ms ≡ ms)
unfolding AllWait
all_wait ms h = h

take-nil : (k : ℕ) → take k (let ms : Arrivals = [] in ms) ≡ []
take-nil zero = refl
take-nil (suc k) = refl

module _ (owned : Ownership) (callback consumer_data channel : ℕ) where
  -- Of all messages that were seen, the ready ones are handed over, and the others stay.
  abbrev pub Passed : List Message → List Notification × List Message → Type 0
  Passed seen (calls, kept) =
      (calls ≡ map (notify owned callback consumer_data channel) (select true seen))
      × (kept ≡ select false seen)

  -- Behind the first call.
  Passed-found :
      (skipped rest more : List Message) (m : Message) (result : List Notification × List Message)
      → AllWait skipped
      → message_is_ready m ≡ true
      → Passed (rest ++ more) result
      → Passed
          ((skipped ++ m ∷ rest) ++ more)
          (notify owned callback consumer_data channel m ∷ result.0, skipped ++ result.1)
  unfolding AllWait
  Passed-found skipped rest more m result (none_ready, all) ready (calls, kept) =
      rw
        (
          append_assoc skipped (m ∷ rest) more,
          select-append true skipped (m ∷ rest ++ more),
          select-append false skipped (m ∷ rest ++ more),
          none_ready,
          all,
          ready,
          calls,
          kept,
        )
        (refl, refl)

  pass_messages_lem :
      (arrivals : Arrivals) (ms : List Message)
      → let result = pass_messages owned callback consumer_data channel arrivals ms in
        Passed (ms ++ arrived (take (length result.0) arrivals)) result
  unfolding pass_messages pass_found
  pass_messages_lem [] ms =
      rw
        (
          pass_rest_lem owned callback consumer_data channel ms,
          take-nil (length (map (notify owned callback consumer_data channel) (select true ms))),
          append-nil ms,
        )
        (refl, refl)
  pass_messages_lem (added ∷ later) ms =
      let (waits, found) = next_ready_lem ms in
      let skipped = (next_ready ms).0 in
      elim found [
        | inl (e, same) ↦
            let (none_ready, all) = all_wait ms (subst AllWait same waits) in
            rw (e, append-nil ms)
              (
                ap (λ t. map (notify owned callback consumer_data channel) t) (sym none_ready),
                same ∙ sym all,
              )
        | inr (m, rest, e, ready, same) ↦
            let result = pass_messages owned callback consumer_data channel later (rest ++ added) in
            let during = arrived (take (length result.0) later) in
            let later_passed =
              subst (λ (t : List Message). Passed t result) (append_assoc rest added during)
                (pass_messages_lem later (rest ++ added)) in
            rw e (
              subst
                (λ (t : List Message).
                  Passed (t ++ (added ++ during))
                    (notify owned callback consumer_data channel m ∷ result.0, skipped ++ result.1))
                (sym same)
                (Passed-found skipped rest (added ++ during) m result waits ready later_passed))
      ]

-- A channel for which a callback is installed, its own or the global one. During each call of the
-- callback other contexts may add messages to the channel. Of the messages that the channel had,
-- followed by all that were added during the calls that were made, every ready one is handed over,
-- oldest first, and exactly the others stay in order. What the callback returns decides only
-- whether the driver frees the data of the message.
pub pass_channel_to_consumer_lem :
    (owned : Ownership) (arrivals : Arrivals) (s : Storage) (c : Channel)
    (callback consumer_data : ℕ)
    → consumer_of s c ≡ some (callback, consumer_data)
    → let (calls, c') = pass_channel_to_consumer owned arrivals s c in
      let seen = c.messages ++ arrived (take (length calls) arrivals) in
      (calls ≡ map (notify owned callback consumer_data c.channel) (select true seen))
      × (c' ≡ record c { messages = select false seen })
unfolding pass_channel_to_consumer
pass_channel_to_consumer_lem owned arrivals s c callback consumer_data e =
    let (calls, kept) =
      pass_messages_lem owned callback consumer_data c.channel arrivals c.messages in
    rw e (calls, ap (λ (ms : List Message). record c { messages = ms }) kept)
