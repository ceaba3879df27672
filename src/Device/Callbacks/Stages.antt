-- ===== src/Device/Callbacks/Stages.antt =====
-- The data stage of the receiver: it always answers, it accepts a package whole or not at all, and
-- it accepts a package only once.
use iccom_utils.Base.{ℕ, ◌≡◌, ◌≢◌, refl, ap, ◌∙◌, sym, ◌⊎◌, inl, inr, [], ◌∷◌, drop}
use iccom_utils.Base.{Option, none, some, Option-cases, get_or, Bool-cases, ◌==◌, ==_iff, ==_refl}
use mathlib.Core.Option
use iccom_utils.Kernel.{Status, ok, err}
use iccom_utils.Package.{Package, get_id, verify_package_data, payload_start_offset}
use iccom_utils.Storage.Commit.Settled.{IsCommitted}
use iccom_utils.Device.{Private}
use iccom_utils.Device.Receive.{finish}
use iccom_utils.Device.Receive.Loop.{
  process_package_payload-ends, finish-IsCommitted, finish-Untouched, Untouched,
}
use iccom_utils.Device.Callbacks.{data_stage, verified, parsed, fillup_ack_xfer}

-- An accepted package: it passes the check, it is acknowledged, and its ID is the last one.
abbrev pub Accepted : Private → Package → Private → Type 0
Accepted d rx d' =
    (verify_package_data rx ≢ none)
    × (d'.last_rx_package_id ≡ get_id rx)
    × (d'.xfer.data_tx ≡ d.ack_val ∷ [])

-- A refused package: it is answered by NACK, and the last ID stays.
abbrev pub Refused : Private → Private → Type 0
Refused d d' = (d'.last_rx_package_id ≡ d.last_rx_package_id) × (d'.xfer.data_tx ≡ d.nack_val ∷ [])

abbrev Answered : Private → Package → Private → Type 0
Answered d rx d' =
    (d'.tx ≡ d.tx)
    × (IsCommitted d.rx_messages → IsCommitted d'.rx_messages)
    × (Accepted d rx d' ⊎ Refused d d')

parsed-Answered :
    (d : Private) (rx : Package) (r : Status × Private)
    → verify_package_data rx ≢ none
    → Untouched d r.1
    → IsCommitted r.1.rx_messages
    → Answered d rx (parsed rx r)
unfolding parsed fillup_ack_xfer
parsed-Answered d rx (ok, d') good (tx, ack, nack, last) committed =
    (tx, λ h. committed, inl (good, refl, ap (λ (v : ℕ). v ∷ []) ack))
parsed-Answered d rx (err e, d') good (tx, ack, nack, last) committed =
    (tx, λ h. committed, inr (last, ap (λ (v : ℕ). v ∷ []) nack))

verified-Answered :
    (d : Private) (rx : Package) (v : Option ℕ)
    → verify_package_data rx ≡ v
    → (d' : Private) × (verified d rx v ≡ some d') × Answered d rx d'
unfolding verified fillup_ack_xfer
verified-Answered d rx none e = (_, refl, (refl, λ h. h, inr (refl, refl)))
verified-Answered d rx (some n) e = elim (Bool-cases (get_id rx == d.last_rx_package_id)) [
  | inl same ↦ rw same (
    _,
    refl,
    (refl, λ h. h, inl (good, sym ((==_iff (get_id rx) d.last_rx_package_id).0 same), refl)),
  )
  | inr fresh ↦
      let (p, ends) = process_package_payload-ends d (drop payload_start_offset rx.bytes) n in
      rw fresh (
        parsed rx (finish d p),
        ap (Option.map (parsed rx)) ends,
        parsed-Answered d rx (finish d p) good (finish-Untouched d p) (finish-IsCommitted d p),
      )
]
  where
    good : verify_package_data rx ≢ none
    good = λ h. cc (h, e)

data_stage-Answered :
    (d : Private) (rx : Package) → (d' : Private) × (data_stage d rx ≡ some d') × Answered d rx d'
unfolding data_stage
data_stage-Answered d rx = verified-Answered d rx (verify_package_data rx) refl

-- If no data of the storage is uncommitted, the data stage ends with an answer for every received
-- package, does not touch the queue of packages to send, and leaves no data uncommitted. Either
-- the package passes the check, is acknowledged and its ID becomes the last one, or it is answered
-- by NACK and the last ID stays.
pub data_stage_lem :
    (d : Private) (rx : Package)
    → IsCommitted d.rx_messages
    → (d' : Private) × (data_stage d rx ≡ some d')
      × (d'.tx ≡ d.tx)
      × IsCommitted d'.rx_messages
      × (Accepted d rx d' ⊎ Refused d d')
data_stage_lem d rx committed =
    let (d', e, (tx, keep, answer)) = data_stage-Answered d rx in
    (d', e, tx, keep committed, answer)

-- A package whose ID is the last one changes nothing in the storage.
data_stage-duplicate :
    (d : Private) (rx : Package)
    → verify_package_data rx ≢ none
    → d.last_rx_package_id ≡ get_id rx
    → (d' : Private) × (data_stage d rx ≡ some d')
      × (d'.rx_messages ≡ d.rx_messages)
      × (d'.last_rx_package_id ≡ get_id rx)
      × (d'.xfer.data_tx ≡ d.ack_val ∷ [])
unfolding data_stage verified fillup_ack_xfer
data_stage-duplicate d rx good e = elim (Option-cases (verify_package_data rx)) [
  | inl bad ↦ absurd (good bad)
  | inr (n, good_data) ↦ rw (good_data, e, ==_refl (get_id rx)) (_, refl, refl, refl, refl)
]

-- Where the values of ACK and NACK differ, a package that was acknowledged and comes again is
-- acknowledged again, and the storage of received messages stays exactly as it is.
pub data_stage-again :
    (d : Private) (rx : Package) (d' : Private)
    → d.ack_val ≢ d.nack_val
    → data_stage d rx ≡ some d'
    → d'.xfer.data_tx ≡ d.ack_val ∷ []
    → (d'' : Private) × (data_stage d' rx ≡ some d'')
      × (d''.rx_messages ≡ d'.rx_messages)
      × (d''.last_rx_package_id ≡ get_id rx)
      × (d''.xfer.data_tx ≡ d'.ack_val ∷ [])
data_stage-again d rx d' differ e acked =
    let (d₁, e₁, (_, _, answer)) = data_stage-Answered d rx in
    let same : d₁ ≡ d' = some_inj (sym e₁ ∙ e) in
    elim answer [
      | inl (good, id, _) ↦
          data_stage-duplicate d' rx good
            (ap (λ (x : Private). x.last_rx_package_id) (sym same) ∙ id)
      | inr (_, nack) ↦
          absurd
            (differ (head_inj (sym acked ∙ ap (λ (x : Private). x.xfer.data_tx) (sym same) ∙ nack)))
    ]
  where
    some_inj : {x y : Private} → some x ≡ some y → x ≡ y
    some_inj h = cc h

    head_inj : {a b : ℕ} → a ∷ [] ≡ b ∷ [] → a ≡ b
    head_inj h = ap (λ xs. get_or xs 0 0) h
