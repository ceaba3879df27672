-- ===== src/Device/Link/Callback.antt =====
-- The two stages as `__iccom_xfer_done_callback` runs them.
use iccom_utils.Base.{
  ℕ, ◌≡◌, ◌≢◌, refl, ap, sym, subst, ◌∙◌, ◌⊎◌, inl, inr, List, ◌∷◌, Bool, true, false, not, some,
  Bool-cases, All,
}
use iccom_utils.Base.{if◌then◌else◌}
use mathlib.Core.Option
use iccom_utils.Package.{Package, get_id, ack_xfer_size}
use iccom_utils.Device.{Private, Tx}
use iccom_utils.Device.Queue.{queue_step_forward}
use iccom_utils.Device.Queue.Enqueue.{IsSealed, stream}
use iccom_utils.Device.Queue.Chain.{IsChained, first_id, queue_step_forward-IsChained}
use iccom_utils.Device.Callbacks.{
  next_xfer, xfer_done_callback, data_stage, ack_stage, count_xfer, switch_stage, verify_ack,
  fillup_next_data_xfer,
}
use iccom_utils.Device.Callbacks.Ack.{SendsFirst, ack_stage_lem}
use iccom_utils.Device.Link.{received}
use iccom_utils.Device.Link.Stage.{Staged, broken, known, stored, in_vain, data_stage-IsStaged}

Staged-switch :
    (d : Private) (rx : Package) (d' : Private) → Staged d rx d' → Staged d rx (switch_stage d')
Staged-switch d rx d' (broken e a b c) = broken e a b c
Staged-switch d rx d' (known n v e a b c) = known n v e a b c
Staged-switch d rx d' (stored n d₁ v f e a b c) = stored n d₁ v f e a b c
Staged-switch d rx d' (in_vain n d₁ x v e a b c) = in_vain n d₁ x v e a b c

next_inj : {x y : Private} {s t : Bool} → some (next_xfer x s) ≡ some (next_xfer y t) → x ≡ y
next_inj h = cc h

-- A device that is open, before its data stage.
abbrev pub Waits : Private → Type 0
Waits d = (d.closing ≡ false) × (d.data_xfer_stage ≡ true)

-- A device that is open, before its ack stage.
abbrev pub Asks : Private → Type 0
Asks d = (d.closing ≡ false) × (d.data_xfer_stage ≡ false)

done_data :
    (d : Private) (rx : List ℕ) (n : ℕ)
    → Waits d
    → xfer_done_callback d (some rx) n
      ≡ Option.map
          (λ d'. next_xfer (switch_stage d') true)
          (data_stage (count_xfer d n) (received rx n))
unfolding xfer_done_callback
done_data d rx n (idle, stage) = simp (idle, stage) refl

done_ack :
    (d : Private) (rx : List ℕ) (n : ℕ)
    → Asks d
    → xfer_done_callback d (some rx) n ≡ (
        let (d', start) = ack_stage (count_xfer d n) (received rx n) in
        some (next_xfer (switch_stage d') start))
unfolding xfer_done_callback
done_ack d rx n (idle, stage) = simp (idle, stage) refl

-- The data stage, up to the counters.
pub data_done :
    (d d' : Private) (rx : List ℕ) (n : ℕ) (start : Bool)
    → Waits d
    → xfer_done_callback d (some rx) n ≡ some (next_xfer d' start)
    → (d'.tx ≡ d.tx)
      × Asks d'
      × (d'.ack_val ≡ d.ack_val)
      × (d'.nack_val ≡ d.nack_val)
      × Staged (count_xfer d n) (received rx n) d'
unfolding count_xfer
data_done d d' rx n start (idle, stage) e =
    let (d₁, e₁, (tx, closing, same, ack, nack), staged) =
      data_stage-IsStaged (count_xfer d n) (received rx n) in
    let done : some (next_xfer (switch_stage d₁) true) ≡ some (next_xfer d' start) =
      sym (
        done_data d rx n (idle, stage)
        ∙ ap (Option.map (λ d'. next_xfer (switch_stage d') true)) e₁)
      ∙ e in
    subst
      (λ (x : Private).
        (x.tx ≡ d.tx)
        × Asks x
        × (x.ack_val ≡ d.ack_val)
        × (x.nack_val ≡ d.nack_val)
        × Staged (count_xfer d n) (received rx n) x)
      (next_inj done)
      (
        tx,
        (closing ∙ idle, ap not (same ∙ stage)),
        ack,
        nack,
        Staged-switch (count_xfer d n) (received rx n) d₁ staged,
      )

-- The ack stage does not touch what the device has received.
abbrev pub SameReceived : Private → Private → Type 0
SameReceived d d' =
    (d'.rx_messages ≡ d.rx_messages)
    × (d'.last_rx_package_id ≡ d.last_rx_package_id)
    × (d'.ack_val ≡ d.ack_val)
    × (d'.nack_val ≡ d.nack_val)

ack_stage-Same :
    (d : Private) (rx : Package)
    → let (d', start) = ack_stage d rx in
      SameReceived d d' × (d'.closing ≡ d.closing) × (d'.data_xfer_stage ≡ d.data_xfer_stage)
unfolding ack_stage fillup_next_data_xfer
ack_stage-Same d rx = elim (Bool-cases (verify_ack rx)) [
  | inl e ↦ rw e ((refl, refl, refl, refl), refl, refl)
  | inr e ↦ rw e ((refl, refl, refl, refl), refl, refl)
]

-- The queue in the ack stage: a step on an ACK, and nothing else.
ack_stage-tx :
    (d : Private) (rx : Package)
    → (ack_stage d rx).0.tx ≡ (if verify_ack rx then (queue_step_forward d.tx).1 else d.tx)
unfolding ack_stage fillup_next_data_xfer
ack_stage-tx d rx = elim (Bool-cases (verify_ack rx)) [ inl e ↦ rw e refl | inr e ↦ rw e refl ]

abbrev pub QueueAfter : Package → List Package → Tx → List ℕ → Private → Type 0
QueueAfter p ps t ack d' =
    SendsFirst d'
    × All IsSealed d'.tx.packages
    × IsChained d'.tx
    × (((verify_ack (received ack ack_xfer_size) ≡ true)
          × (stream d'.tx.packages ≡ stream ps)
          × (first_id d'.tx.packages ≢ some (get_id p)))
        ⊎ ((verify_ack (received ack ack_xfer_size) ≡ false) × (d'.tx ≡ t)))

ack_stage-Queue :
    (d : Private) (ack : List ℕ) (p : Package) (ps : List Package)
    → d.tx.packages ≡ p ∷ ps
    → All IsSealed (p ∷ ps)
    → IsChained d.tx
    → QueueAfter p ps d.tx ack (ack_stage d (received ack ack_xfer_size)).0
ack_stage-Queue d ack p ps shape sealed chained =
    let rx = received ack ack_xfer_size in
    let (sends, sealed', flow, _) = ack_stage_lem d rx p ps shape sealed in
    elim (Bool-cases (verify_ack rx)) [
      | inl acked ↦
          let moved =
            ack_stage-tx d rx ∙ ap (λ b. if b then (queue_step_forward d.tx).1 else d.tx) acked in
          let (chained', apart) = queue_step_forward-IsChained d.tx p ps shape chained in
          (
            sends,
            sealed',
            subst IsChained (sym moved) chained',
            inl (
              acked,
              flow ∙ ap (λ b. if b then stream ps else stream (p ∷ ps)) acked,
              subst (λ (t : Tx). first_id t.packages ≢ some (get_id p)) (sym moved) apart,
            ),
          )
      | inr other ↦
          let same =
            ack_stage-tx d rx ∙ ap (λ b. if b then (queue_step_forward d.tx).1 else d.tx) other in
          (sends, sealed', subst IsChained (sym same) chained, inr (other, same))
    ]

pub ack_done :
    (d d' : Private) (ack : List ℕ) (start : Bool)
    → Asks d
    → xfer_done_callback d (some ack) ack_xfer_size ≡ some (next_xfer d' start)
    → SameReceived d d' × Waits d'
unfolding count_xfer
ack_done d d' ack start (idle, stage) e =
    let c = count_xfer d ack_xfer_size in
    let (same, closing, kept) = ack_stage-Same c (received ack ack_xfer_size) in
    subst (λ (x : Private). SameReceived d x × Waits x)
      (next_inj (sym (done_ack d ack ack_xfer_size (idle, stage)) ∙ e))
      (same, (closing ∙ idle, ap not (kept ∙ stage)))

pub ack_done-Queue :
    (d d' : Private) (ack : List ℕ) (start : Bool) (p : Package) (ps : List Package)
    → Asks d
    → xfer_done_callback d (some ack) ack_xfer_size ≡ some (next_xfer d' start)
    → d.tx.packages ≡ p ∷ ps
    → All IsSealed (p ∷ ps)
    → IsChained d.tx
    → QueueAfter p ps d.tx ack d'
unfolding count_xfer
ack_done-Queue d d' ack start p ps asks e shape sealed chained =
    subst (QueueAfter p ps d.tx ack) (next_inj (sym (done_ack d ack ack_xfer_size asks) ∙ e))
      (ack_stage-Queue (count_xfer d ack_xfer_size) ack p ps shape sealed chained)

-- Both stages end.
pub data_ends :
    (d : Private) (rx : List ℕ) (n : ℕ)
    → Waits d
    → (d' : Private) × (xfer_done_callback d (some rx) n ≡ some (next_xfer d' true))
data_ends d rx n waits =
    let (d₁, e₁, _, _) = data_stage-IsStaged (count_xfer d n) (received rx n) in
    (
      switch_stage d₁,
      done_data d rx n waits ∙ ap (Option.map (λ d'. next_xfer (switch_stage d') true)) e₁,
    )

pub ack_ends :
    (d : Private) (ack : List ℕ)
    → Asks d
    → (d' : Private) × (start : Bool) × (xfer_done_callback d (some ack) ack_xfer_size
        ≡ some (next_xfer d' start))
ack_ends d ack asks = (_, _, done_ack d ack ack_xfer_size asks)
