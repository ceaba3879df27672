-- ===== src/Symspi/Safe/Idle.antt =====
-- The way back to IDLE.
use iccom_utils.Base.{
  if_both, ◌≡◌, refl, sym, subst, ◌-◌, arith, Bool, true, false, ◌||◌, ltb, Option, some,
}
use iccom_utils.Symspi.{State, SpiError, SymspiDev, Result, success, failure}
use iccom_utils.Symspi.Switch.{number, same_state, switch_strict}
use iccom_utils.Symspi.Errors.{is_success, try_to_error_sequence}
use iccom_utils.Symspi.Leave.{Outside, stop_timeout_timer, is_their_request}
use iccom_utils.Symspi.Exchange.{repeat_xchange, checked_idle, started_or_idle, to_idle_sequence}
use iccom_utils.Symspi.Safe.{is_waiting, IsSafeBut, Checked, Returns, Returns-bind, Returns-map}
use iccom_utils.Symspi.Safe.Leave.{try_to_error-Checked}
use iccom_utils.Symspi.Safe.Exchange.{IsFree, Settled, repeat_xchange-Settled}

idle-IsSafeBut :
    (s : State) (d : SymspiDev)
    → same_state s State.xfer ≡ false
    → IsFree s d
    → IsSafeBut s d
    → IsSafeBut State.idle (switch_strict d s State.idle).1
unfolding switch_strict number
idle-IsSafeBut s d other free safe = ground arith

started_or_idle-IsSafeBut :
    (o : Outside) (s : State) (start : Bool) (d : SymspiDev)
    → o.spi_async ≡ true
    → same_state s State.xfer ≡ false
    → IsFree s d
    → IsSafeBut s d
    → Returns (λ r. IsSafeBut State.idle r.1) (started_or_idle o s start d)
unfolding started_or_idle
started_or_idle-IsSafeBut o s start d taken other free safe =
    if_both (Returns (λ (r : Bool × SymspiDev). IsSafeBut State.idle r.1))
      (start || is_their_request o d)
      (Returns-bind Settled (λ (r : Bool × SymspiDev). IsSafeBut State.idle r.1)
        (repeat_xchange o s d) (λ r. some (is_success r.0, r.2))
        (repeat_xchange-Settled o s d taken other free safe) (λ r safe'. safe'))
      (idle-IsSafeBut s d other free safe)

Checked-IsSafeBut :
    (d : SymspiDev) (res : Result) (d' : SymspiDev)
    → IsSafeBut State.idle d
    → Checked d res d'
    → IsSafeBut State.idle d'
Checked-IsSafeBut d success d' safe same = subst (IsSafeBut State.idle) (sym same) safe
Checked-IsSafeBut d (failure e) d' safe safe' = safe'

checked_idle-IsSafeBut :
    (s : State) (internal_error : Option SpiError) (started : Bool) (d : SymspiDev)
    → IsSafeBut State.idle d
    → Returns (λ r. IsSafeBut State.idle r.1) (checked_idle s internal_error started d)
unfolding checked_idle number
checked_idle-IsSafeBut s internal_error started d safe =
    if_both (Returns (λ (r : Result × SymspiDev). IsSafeBut State.idle r.1))
      (started || same_state s State.error) safe
      (Returns-map (λ (r : Result × SymspiDev). Checked d r.0 r.1)
        (λ (r : Result × SymspiDev). IsSafeBut State.idle r.1)
        (try_to_error_sequence internal_error d)
        (try_to_error-Checked internal_error State.idle d refl safe)
        (λ r checked. Checked-IsSafeBut d r.0 r.1 safe checked))

stopped-IsSafeBut :
    (s : State) (d : SymspiDev)
    → is_waiting d.state ≡ false
    → IsSafeBut s d
    → IsSafeBut s
        (record (stop_timeout_timer d) { delayed_xfer_request = d.delayed_xfer_request - 1 })
unfolding stop_timeout_timer number
stopped-IsSafeBut s d active safe = ground arith

pub to_idle-IsSafeBut :
    (o : Outside) (s : State) (start_next_xfer : Bool) (internal_error : Option SpiError)
    (d : SymspiDev)
    → o.spi_async ≡ true
    → same_state s State.xfer ≡ false
    → IsFree s d
    → is_waiting d.state ≡ false
    → IsSafeBut s d
    → Returns
        (λ r. IsSafeBut State.idle r.1)
        (to_idle_sequence o s start_next_xfer internal_error d)
unfolding to_idle_sequence stop_timeout_timer
to_idle-IsSafeBut o s start_next_xfer internal_error d taken other free active safe =
    let d1 = record (stop_timeout_timer d) { delayed_xfer_request = d.delayed_xfer_request - 1 } in
    let start = start_next_xfer || ltb 0 d.delayed_xfer_request in
    Returns-bind (λ (r : Bool × SymspiDev). IsSafeBut State.idle r.1)
      (λ (r : Result × SymspiDev). IsSafeBut State.idle r.1) (started_or_idle o s start d1)
      (λ r. checked_idle s internal_error r.0 r.1)
      (started_or_idle-IsSafeBut o s start d1 taken other free (stopped-IsSafeBut s d active safe))
      (λ r safe'. checked_idle-IsSafeBut s internal_error r.0 r.1 safe')
