-- ===== src/Symspi/Safe/Exchange.antt =====
-- The requests for a transfer and the way back to IDLE.
use iccom_utils.Base.{
  ◌≡◌, refl, sym, subst, ℕ, arith, Bool, true, false, ◌||◌, if◌then◌else◌, Bool-cases, inl, inr,
  ◌⊎◌, Option, none, some,
}
use iccom_utils.Symspi.{State, SpiError, SpiXfer, SymspiDev, Result, success, failure}
use iccom_utils.Symspi.Switch.{number, same_state}
use iccom_utils.Symspi.Switch.Open.{missed, hit}
use iccom_utils.Symspi.Errors.{is_success, try_to_error_sequence}
use iccom_utils.Symspi.Leave.{Outside, xfer_prepare_to_waiting_prev_sequence}
use iccom_utils.Symspi.Exchange.{
  Updated, prepared, checked_input, verify_consumer_input, switch_to_xfer_prepare_sequence,
  xchanged, repeat_xchange,
}
use iccom_utils.Symspi.Safe.{is_nowhere, IsSafeBut, Checked, Returns, Returns-bind}
use iccom_utils.Symspi.Safe.Leave.{try_to_error-Checked, xfer_prepare_to_waiting_prev-IsSafeBut}

-- After an update the device is safe, or may still be in XFER_PREPARE if there was no error.
abbrev pub AfterUpdate : State → Result × Option ℕ × SymspiDev → Type 0
AfterUpdate s r = IsSafeBut (if is_success r.0 then s else State.idle) r.2

abbrev pub Settled : Result × Option ℕ × SymspiDev → Type 0
Settled r = IsSafeBut State.idle r.2

-- The postprocessing does not wait if the device leaves its states.
abbrev pub IsFree : State → SymspiDev → Type 0
IsFree s d =
    is_nowhere d.postprocessing || same_state s State.idle || same_state s State.xfer_prepare ≡ true

pub prepare-IsSafeBut :
    (s : State) (d : SymspiDev)
    → same_state s State.xfer ≡ false
    → IsFree s d
    → IsSafeBut s d
    → same_state d.state s ≡ true
    → IsSafeBut State.xfer_prepare (record d { state = State.xfer_prepare })
unfolding number
prepare-IsSafeBut s d other free safe at = ground arith

elsewhere-IsSafeBut :
    (s : State) (d : SymspiDev)
    → IsSafeBut s d
    → same_state d.state s ≡ false
    → IsSafeBut State.idle d
unfolding number
elsewhere-IsSafeBut s d safe off = ground arith

-- A request whose update of the current transfer gives `Q`, as a failure does.
module _ (Q : Result × Option ℕ × SymspiDev → Type 0)
    (failed : (e : SpiError) (d : SymspiDev) → IsSafeBut State.idle d → Q (failure e, none, d))
    (update : SymspiDev → Updated) where
  update-Checked :
      (d : SymspiDev) (res : Result) (d' : SymspiDev)
      → Returns Q (update d)
      → Checked d res d'
      → Returns Q (if is_success res then update d' else some (res, none, d'))
  update-Checked d success d' h same = subst (λ x. Returns Q (update x)) (sym same) h
  update-Checked d (failure e) d' h safe' = failed e d' safe'

  prepared-Returns :
      (s : State) (d : SymspiDev)
      → same_state s State.xfer ≡ false
      → IsFree s d
      → IsSafeBut s d
      → (same_state d.state s ≡ true → Returns Q (update (record d { state = State.xfer_prepare })))
      → Returns Q (prepared update s d)
  unfolding prepared number
  prepared-Returns s d other free safe h = elim (Bool-cases (same_state d.state s)) [
    | inl at ↦
        let d1 = record d { state = State.xfer_prepare } in
        let safe1 : IsSafeBut State.xfer_prepare d1 = prepare-IsSafeBut s d other free safe at in
        simp (hit d d.state refl safe.0.0 s State.xfer_prepare at) (
          Returns-bind (λ (r : Result × SymspiDev). Checked d1 r.0 r.1) Q
            (try_to_error_sequence none d1)
            (λ r. if is_success r.0 then update r.1 else some (r.0, none, r.1))
            (try_to_error-Checked none State.xfer_prepare d1 refl safe1)
            (λ r checked. update-Checked d1 r.0 r.1 (h at) checked))
    | inr off ↦
        simp (missed d d.state refl safe.0.0 s State.xfer_prepare off)
          (failed SpiError.not_ready d (elsewhere-IsSafeBut s d safe off))
  ]

  checked_input-Returns :
      (e : Option SpiError) (s : State) (d : SymspiDev)
      → same_state s State.xfer ≡ false
      → IsFree s d
      → IsSafeBut s d
      → (e ≡ none) ⊎ IsSafeBut State.idle d
      → (same_state d.state s ≡ true → Returns Q (update (record d { state = State.xfer_prepare })))
      → Returns Q (checked_input e update s d)
  unfolding checked_input
  checked_input-Returns none s d other free safe _ h = prepared-Returns s d other free safe h
  checked_input-Returns (some e) s d other free safe (inl bad) h = cc
  checked_input-Returns (some e) s d other free safe (inr safe') h = failed e d safe'

  pub switch_to_xfer_prepare-Returns :
      (xfer : Option SpiXfer) (s : State) (d : SymspiDev)
      → same_state s State.xfer ≡ false
      → IsFree s d
      → IsSafeBut s d
      → (verify_consumer_input d xfer ≡ none) ⊎ IsSafeBut State.idle d
      → (same_state d.state s ≡ true → Returns Q (update (record d { state = State.xfer_prepare })))
      → Returns Q (switch_to_xfer_prepare_sequence xfer update s d)
  unfolding switch_to_xfer_prepare_sequence
  switch_to_xfer_prepare-Returns xfer s d other free safe good h =
      checked_input-Returns (verify_consumer_input d xfer) s d other free safe good h

pub xchanged-Settled :
    (o : Outside) (repeated : Bool) (res : Result) (id : Option ℕ) (d : SymspiDev)
    → o.spi_async ≡ true
    → IsSafeBut (if is_success res then State.xfer_prepare else State.idle) d
    → Returns Settled (xchanged o repeated res id d)
unfolding xchanged
xchanged-Settled o repeated success id d taken safe =
    Returns-bind (λ (r : Result × SymspiDev). IsSafeBut State.idle r.1) Settled
      (xfer_prepare_to_waiting_prev_sequence o d) (λ r. some (r.0, id, r.1))
      (xfer_prepare_to_waiting_prev-IsSafeBut o d taken safe) (λ r safe'. safe')
xchanged-Settled o true (failure SpiError.not_ready) id d taken safe = safe
xchanged-Settled o false (failure e) id d taken safe = safe
xchanged-Settled o true (failure _) id d taken safe = safe

pub repeat_xchange-Settled :
    (o : Outside) (s : State) (d : SymspiDev)
    → o.spi_async ≡ true
    → same_state s State.xfer ≡ false
    → IsFree s d
    → IsSafeBut s d
    → Returns Settled (repeat_xchange o s d)
unfolding repeat_xchange verify_consumer_input
repeat_xchange-Settled o s d taken other free safe =
    let input : verify_consumer_input d none ≡ none = ground arith in
    simp safe.0.0 (
      Returns-bind (AfterUpdate State.xfer_prepare) Settled
        (switch_to_xfer_prepare_sequence none (λ d1. some (success, none, d1)) s d)
        (λ r. xchanged o (same_state s State.idle) r.0 r.1 r.2)
        (switch_to_xfer_prepare-Returns (AfterUpdate State.xfer_prepare) (λ e d1 safe1. safe1)
          (λ d1. some (success, none, d1)) none s d other free safe (inl input)
          (λ at. prepare-IsSafeBut s d other free safe at))
        (λ r safe'. xchanged-Settled o (same_state s State.idle) r.0 r.1 r.2 taken safe'))
