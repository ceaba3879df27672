-- ===== src/Symspi/Errors/Loop.antt =====
-- The loop of `__symspi_error_handle_`.
use iccom_utils.Base.{if_split, ℕ, zero, suc, ◌≡◌, refl, arith, true, false, ◌||◌, none, some}
use iccom_utils.Base.{if◌then◌else◌}
use iccom_utils.Symspi.{State, SpiError, SymspiDev}
use iccom_utils.Symspi.Switch.{number, same_state, switch_strict}
use iccom_utils.Symspi.Switch.Open.{missed, hit, stayed}
use iccom_utils.Symspi.Errors.{try_switches, postponed, error_round, error_loop}

-- The decision by the state.
abbrev pub handled : SpiError → SymspiDev → SymspiDev
handled err d =
    if same_state d.state State.error || same_state d.state State.cold
    then d
    else if same_state d.state State.xfer
    then record d { last_error = some err }
    else record d { state = State.error; last_error = some err; recover_work = true }

round_open :
    (err : SpiError) (d : SymspiDev) (s : State)
    → d.state ≡ s
    → d.close_request ≡ false
    → error_round err d ≡ (true, handled err d)
unfolding error_round try_switches postponed number
round_open err d State.cold e opened =
    simp
      (
        missed d State.cold e opened State.idle State.error refl,
        missed d State.cold e opened State.xfer_prepare State.error refl,
        missed d State.cold e opened State.waiting_prev State.error refl,
        missed d State.cold e opened State.waiting_rdy State.error refl,
        missed d State.cold e opened State.postprocessing State.error refl,
        missed d State.cold e opened State.error State.error refl,
        missed d State.cold e opened State.xfer State.xfer refl,
        stayed d State.cold e opened refl,
        e,
      )
      refl
round_open err d State.idle e opened =
    simp (hit d State.idle e opened State.idle State.error refl, e) refl
round_open err d State.xfer_prepare e opened =
    simp
      (
        missed d State.xfer_prepare e opened State.idle State.error refl,
        hit d State.xfer_prepare e opened State.xfer_prepare State.error refl,
        e,
      )
      refl
round_open err d State.waiting_prev e opened =
    simp
      (
        missed d State.waiting_prev e opened State.idle State.error refl,
        missed d State.waiting_prev e opened State.xfer_prepare State.error refl,
        hit d State.waiting_prev e opened State.waiting_prev State.error refl,
        e,
      )
      refl
round_open err d State.waiting_rdy e opened =
    simp
      (
        missed d State.waiting_rdy e opened State.idle State.error refl,
        missed d State.waiting_rdy e opened State.xfer_prepare State.error refl,
        missed d State.waiting_rdy e opened State.waiting_prev State.error refl,
        hit d State.waiting_rdy e opened State.waiting_rdy State.error refl,
        e,
      )
      refl
round_open err d State.xfer e opened =
    simp
      (
        missed (record d { last_error = some err }) State.xfer e opened State.postprocessing
            State.error refl,
        missed d State.xfer e opened State.idle State.error refl,
        missed d State.xfer e opened State.xfer_prepare State.error refl,
        missed d State.xfer e opened State.waiting_prev State.error refl,
        missed d State.xfer e opened State.waiting_rdy State.error refl,
        missed d State.xfer e opened State.postprocessing State.error refl,
        missed d State.xfer e opened State.error State.error refl,
        stayed d State.xfer e opened refl,
      )
      (simp e refl)
round_open err d State.postprocessing e opened =
    simp
      (
        missed d State.postprocessing e opened State.idle State.error refl,
        missed d State.postprocessing e opened State.xfer_prepare State.error refl,
        missed d State.postprocessing e opened State.waiting_prev State.error refl,
        missed d State.postprocessing e opened State.waiting_rdy State.error refl,
        hit d State.postprocessing e opened State.postprocessing State.error refl,
        e,
      )
      refl
round_open err d State.error e opened =
    simp
      (
        missed d State.error e opened State.idle State.error refl,
        missed d State.error e opened State.xfer_prepare State.error refl,
        missed d State.error e opened State.waiting_prev State.error refl,
        missed d State.error e opened State.waiting_rdy State.error refl,
        missed d State.error e opened State.postprocessing State.error refl,
        stayed d State.error e opened refl,
        e,
      )
      refl

pub error_loop-open :
    (err : SpiError) (d : SymspiDev) (fuel : ℕ)
    → d.close_request ≡ false
    → error_loop (suc fuel) err d ≡ some (handled err d)
unfolding error_loop
error_loop-open err d fuel open' = rw (round_open err d d.state refl open') refl

round_closing :
    (err : SpiError) (d : SymspiDev) → d.close_request ≡ true → error_round err d ≡ (false, d)
unfolding error_round try_switches postponed switch_strict number
round_closing err d closing = ground arith

pub error_loop-closing :
    (err : SpiError) (d : SymspiDev) (fuel : ℕ)
    → d.close_request ≡ true
    → error_loop fuel err d ≡ none
unfolding error_loop
error_loop-closing err d zero closing = refl
error_loop-closing err d (suc fuel) closing =
    rw (round_closing err d closing) (error_loop-closing err d fuel closing)

-- The loop of the error handling on a device that is not being closed returns in its first round:
-- in COLD and ERROR it changes nothing, in XFER it notes the error, and from any other state it
-- goes to ERROR, notes the error and queues the recovery. On a device that is being closed it does
-- not return after any number of rounds.
pub error_loop_lem :
    (err : SpiError) (d : SymspiDev) (fuel : ℕ)
    → error_loop (suc fuel) err d ≡ (if d.close_request then none else some (handled err d))
error_loop_lem err d fuel =
    if_split (λ r. error_loop (suc fuel) err d ≡ r) d.close_request
      (error_loop-closing err d (suc fuel)) (error_loop-open err d fuel)
