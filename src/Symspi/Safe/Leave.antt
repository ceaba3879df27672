-- ===== src/Symspi/Safe/Leave.antt =====
-- The start of a transfer.
use iccom_utils.Base.{
  if_both, ◌≡◌, refl, arith, true, false, not, ◌||◌, ◌==◌, if◌then◌else◌, subst, sym, Option, none,
  some,
}
use iccom_utils.Symspi.{State, SpiError, SymspiDev, Result, success, failure}
use iccom_utils.Symspi.Switch.{number, same_state, switch_strict}
use iccom_utils.Symspi.Leave.{
  Outside, restart_timeout_timer, try_leave_waiting_prev_sequence, try_leave_waiting_rdy_sequence,
  to_waiting_prev, raised, xfer_prepare_to_waiting_prev_sequence,
}
use iccom_utils.Symspi.Errors.{
  is_success, counted, error_handle, found_error, after_found, try_to_error_sequence,
}
use iccom_utils.Symspi.Errors.Loop.{handled, error_loop-open}
use iccom_utils.Symspi.Safe.{IsSafeBut, Checked, Returns, Returns-bind}

pub try_leave_waiting_rdy-IsSafeBut :
    (o : Outside) (d : SymspiDev)
    → o.spi_async ≡ true
    → IsSafeBut State.idle d
    → IsSafeBut State.idle (try_leave_waiting_rdy_sequence o d).1
unfolding try_leave_waiting_rdy_sequence switch_strict number
try_leave_waiting_rdy-IsSafeBut o d taken safe = ground arith

pub try_leave_waiting_prev-IsSafeBut :
    (o : Outside) (d : SymspiDev)
    → o.spi_async ≡ true
    → IsSafeBut State.idle d
    → IsSafeBut State.idle (try_leave_waiting_prev_sequence o d).1
unfolding try_leave_waiting_prev_sequence switch_strict number
try_leave_waiting_prev-IsSafeBut o d taken safe = ground arith

-- The switch to WAITING_PREV with the timer.
waiting-IsSafeBut :
    (d : SymspiDev)
    → IsSafeBut State.xfer_prepare d
    → let (switched, d1) = switch_strict d State.xfer_prepare State.waiting_prev in
      IsSafeBut State.idle (if switched then restart_timeout_timer d1 else d1)
unfolding restart_timeout_timer switch_strict number
waiting-IsSafeBut d safe = ground arith

to_waiting_prev-IsSafeBut :
    (o : Outside) (d : SymspiDev)
    → o.spi_async ≡ true
    → IsSafeBut State.xfer_prepare d
    → IsSafeBut State.idle (to_waiting_prev o d).1
unfolding to_waiting_prev
to_waiting_prev-IsSafeBut o d taken safe =
    let (switched, d1) = switch_strict d State.xfer_prepare State.waiting_prev in
    let d2 = if switched then restart_timeout_timer d1 else d1 in
    let safe2 = waiting-IsSafeBut d safe in
    if_both (λ (r : Result × SymspiDev). IsSafeBut State.idle r.1)
      (d2.their_flag_drop_counter == 1 || not d2.spi_master_mode)
      (try_leave_waiting_prev-IsSafeBut o d2 taken safe2) safe2

-- Counting an error changes nothing else.
counted-IsSafeBut :
    (e : SpiError) (s : State) (d : SymspiDev) → IsSafeBut s d → IsSafeBut s (counted e d)
unfolding counted
counted-IsSafeBut SpiError.other_side s d safe = safe
counted-IsSafeBut _ s d safe = safe

-- A device with an error is in ERROR, with its recovery queued, or in XFER.
handled-IsSafeBut :
    (e : SpiError) (s : State) (d : SymspiDev)
    → same_state s State.error || same_state s State.cold || same_state s State.xfer ≡ false
    → IsSafeBut s d
    → IsSafeBut State.idle (handled e d)
unfolding number
handled-IsSafeBut e s d other safe = ground arith

pub error_handle-IsSafeBut :
    (e : SpiError) (s : State) (d : SymspiDev)
    → same_state s State.error || same_state s State.cold || same_state s State.xfer ≡ false
    → IsSafeBut s d
    → Returns (IsSafeBut State.idle) (error_handle e d)
unfolding error_handle
error_handle-IsSafeBut e s d other safe =
    let safe' = counted-IsSafeBut e s d safe in
    subst (Returns (IsSafeBut State.idle)) (sym (error_loop-open e (counted e d) 0 safe'.0.0))
      (handled-IsSafeBut e s (counted e d) other safe')

after_found-Checked :
    (e : Option SpiError) (s : State) (d : SymspiDev)
    → same_state s State.error || same_state s State.cold || same_state s State.xfer ≡ false
    → IsSafeBut s d
    → Returns (λ r. Checked d r.0 r.1) (after_found e d)
unfolding after_found
after_found-Checked none s d other safe = refl
after_found-Checked (some e) s d other safe =
    Returns-bind (IsSafeBut State.idle) (λ (r : Result × SymspiDev). Checked d r.0 r.1)
      (error_handle e d) (λ d'. some (failure e, d')) (error_handle-IsSafeBut e s d other safe)
      (λ d' safe'. safe')

-- An error that is found ends in ERROR with its recovery queued; without one nothing changes.
pub try_to_error-Checked :
    (internal_error : Option SpiError) (s : State) (d : SymspiDev)
    → same_state s State.error || same_state s State.cold || same_state s State.xfer ≡ false
    → IsSafeBut s d
    → Returns (λ r. Checked d r.0 r.1) (try_to_error_sequence internal_error d)
unfolding try_to_error_sequence
try_to_error-Checked internal_error s d other safe =
    after_found-Checked (found_error internal_error d) s d other safe

raised-IsSafeBut : (s : State) (d : SymspiDev) → IsSafeBut s d → IsSafeBut s (raised d)
unfolding raised
raised-IsSafeBut s d safe = ground arith

to_waiting_prev-Returns :
    (o : Outside) (d : SymspiDev) (res : Result) (d' : SymspiDev)
    → o.spi_async ≡ true
    → IsSafeBut State.xfer_prepare d
    → Checked d res d'
    → Returns
        (λ r. IsSafeBut State.idle r.1)
        (if is_success res then some (to_waiting_prev o d') else some (res, d'))
to_waiting_prev-Returns o d success d' taken safe same =
    to_waiting_prev-IsSafeBut o d' taken (subst (IsSafeBut State.xfer_prepare) (sym same) safe)
to_waiting_prev-Returns o d (failure e) d' taken safe safe' = safe'

pub xfer_prepare_to_waiting_prev-IsSafeBut :
    (o : Outside) (d : SymspiDev)
    → o.spi_async ≡ true
    → IsSafeBut State.xfer_prepare d
    → Returns (λ r. IsSafeBut State.idle r.1) (xfer_prepare_to_waiting_prev_sequence o d)
unfolding xfer_prepare_to_waiting_prev_sequence number
xfer_prepare_to_waiting_prev-IsSafeBut o d taken safe =
    let safe1 = raised-IsSafeBut State.xfer_prepare d safe in
    Returns-bind (λ (r : Result × SymspiDev). Checked (raised d) r.0 r.1)
      (λ (r : Result × SymspiDev). IsSafeBut State.idle r.1) (try_to_error_sequence none (raised d))
      (λ r. if is_success r.0 then some (to_waiting_prev o r.1) else some (r.0, r.1))
      (try_to_error-Checked none State.xfer_prepare (raised d) refl safe1)
      (λ r checked. to_waiting_prev-Returns o (raised d) r.0 r.1 taken safe1 checked)
