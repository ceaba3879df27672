-- ===== src/Device/Link/Retry.antt =====
-- Transfers that fail, as `__iccom_xfer_failed_callback` takes them.
use iccom_utils.Base.{ℕ, ◌≡◌, refl, ap, subst, ◌∙◌, ◌⊎◌, inl, inr, List, [], ◌∷◌, true, false}
use iccom_utils.Package.{data_xfer_size}
use iccom_utils.Device.{Private}
use iccom_utils.Device.Callbacks.{next_xfer, xfer_failed_callback, fillup_ack_xfer, count_xfer}
use iccom_utils.Device.Link.{received, Transferred, done, failed, Retried, no_retry, retry}
use iccom_utils.Device.Link.Stage.{Staged}
use iccom_utils.Device.Link.Callback.{Waits, Asks, SameReceived, data_done}

-- A failed transfer: NACK is to be sent, and nothing else happens.
abbrev pub Failed : Private → Private → Type 0
Failed d d' = (d'.tx ≡ d.tx) × Asks d' × SameReceived d d' × (d'.xfer.data_tx ≡ d.nack_val ∷ [])

next_failed_inj : {x y : Private} → next_xfer x false ≡ next_xfer y false → x ≡ y
next_failed_inj h = cc h

failed_lem :
    (d d' : Private) (now_ns : ℕ)
    → d.closing ≡ false
    → xfer_failed_callback d now_ns ≡ next_xfer d' false
    → Failed d d'
unfolding xfer_failed_callback fillup_ack_xfer
failed_lem d d' now_ns idle e =
    subst (Failed d) (next_failed_inj (simp idle at e))
      (refl, (refl, refl), (refl, refl, refl, refl), refl)

-- A transfer of the data stage.
pub transferred_lem :
    (d d' : Private) (rx : List ℕ)
    → Waits d
    → Transferred d rx d'
    → (d'.tx ≡ d.tx)
      × Asks d'
      × (d'.ack_val ≡ d.ack_val)
      × (d'.nack_val ≡ d.nack_val)
      × (Staged (count_xfer d data_xfer_size) (received rx data_xfer_size) d' ⊎ Failed d d')
transferred_lem d d' rx waits (done e) =
    let (tx, asks, ack, nack, staged) = data_done d d' rx data_xfer_size true waits e in
    (tx, asks, ack, nack, inl staged)
transferred_lem d d' rx waits (failed now e) =
    let f = failed_lem d d' now waits.0 e in (f.0, f.1, f.2.2, f.2.3, inr f)

-- Answers that have to be sent again.
pub retried_lem :
    (d d' : Private)
    → Asks d
    → Retried d d'
    → (d'.tx ≡ d.tx)
      × Asks d'
      × SameReceived d d'
      × ((d'.xfer.data_tx ≡ d.xfer.data_tx) ⊎ (d'.xfer.data_tx ≡ d.nack_val ∷ []))
retried_lem d d' asks no_retry = (refl, asks, (refl, refl, refl, refl), inl refl)
retried_lem d d' asks (retry {d₁ = d₁} now before e) =
    let (tx, asks₁, (rx, last, ack, nack), _) = retried_lem d d₁ asks before in
    let (tx', asks', (rx', last', ack', nack'), answer) = failed_lem d₁ d' now asks₁.0 e in
    (
      tx' ∙ tx,
      asks',
      (rx' ∙ rx, last' ∙ last, ack' ∙ ack, nack' ∙ nack),
      inr (answer ∙ ap (λ (v : ℕ). v ∷ []) nack),
    )
