-- ===== src/Symspi/Safe/Interrupts.antt =====
-- The interrupts and the timers.
use iccom_utils.Base.{
  if_both, if_split, ◌≡◌, refl, ◌+◌, arith, Bool, true, false, not, ◌&&◌, ◌==◌, leb, if◌then◌else◌,
  Option, none, some, inl, inr, Bool-cases,
}
use iccom_utils.Symspi.{State, SpiError, SymspiDev, Result}
use iccom_utils.Symspi.Switch.{number, same_state, switch_strict}
use iccom_utils.Symspi.Switch.Open.{hit}
use iccom_utils.Symspi.Leave.{Outside, xfer_prepare_to_waiting_prev_sequence}
use iccom_utils.Symspi.Works.{
  other_side_wait_timeout, xfer_done, spi_xfer_done_callback, their_flag_drop_isr_sequence,
  their_flag_set_isr_sequence, their_flag_isr,
}
use iccom_utils.Symspi.Safe.{is_waiting, IsSafeBut, Returns, Returns-bind}
use iccom_utils.Symspi.Safe.Leave.{
  error_handle-IsSafeBut, try_leave_waiting_prev-IsSafeBut, try_leave_waiting_rdy-IsSafeBut,
  xfer_prepare_to_waiting_prev-IsSafeBut,
}

pub timeout-IsSafeBut :
    (d : SymspiDev)
    → IsSafeBut State.idle d
    → Returns
        (IsSafeBut State.idle)
        (other_side_wait_timeout (record d { wait_timeout_timer = false }))
unfolding other_side_wait_timeout number
timeout-IsSafeBut d safe =
    let d1 = record d { wait_timeout_timer = false } in
    elim (Bool-cases (is_waiting d.state)) [
      | inl waiting ↦
          error_handle-IsSafeBut SpiError.wait_other_side d.state d1 (ground arith) (ground arith)
      | inr active ↦
          error_handle-IsSafeBut SpiError.wait_other_side State.idle d1 refl (ground arith)
    ]

xfer_done-IsSafeBut :
    (last_error : Option SpiError) (good : Bool) (d : SymspiDev)
    → IsSafeBut State.postprocessing d
    → Returns (IsSafeBut State.idle) (xfer_done last_error good d)
unfolding xfer_done number
xfer_done-IsSafeBut (some e) good d safe = error_handle-IsSafeBut e State.postprocessing d refl safe
xfer_done-IsSafeBut none false d safe =
    error_handle-IsSafeBut SpiError.spi State.postprocessing d refl safe
xfer_done-IsSafeBut none true d safe = ground arith

pub spi_xfer_done-IsSafeBut :
    (good : Bool) (d : SymspiDev)
    → d.spi_msg ≡ true
    → IsSafeBut State.idle d
    → Returns (IsSafeBut State.idle) (spi_xfer_done_callback good (record d { spi_msg = false }))
unfolding spi_xfer_done_callback number
spi_xfer_done-IsSafeBut good d running safe =
    let d1 = record d { spi_msg = false } in
    let d2 = if d1.spi_master_mode then d1 else record d1 { slave_tx_fill_timeout_timer = false } in
    let P = λ (x : SymspiDev).
      IsSafeBut State.postprocessing (record x { state = State.postprocessing })
      × (same_state x.state State.xfer ≡ true) in
    let p : P d1 = ground arith in
    let (safe2, at) =
      if_both P d1.spi_master_mode {x = d1} {y = record d1 { slave_tx_fill_timeout_timer = false }}
        p p in
    simp (hit d2 d2.state refl safe2.0.0 State.xfer State.postprocessing at)
      (xfer_done-IsSafeBut d2.last_error good (record d2 { state = State.postprocessing }) safe2)

drop-IsSafeBut :
    (o : Outside) (d : SymspiDev)
    → o.spi_async ≡ true
    → IsSafeBut State.idle d
    → Returns (IsSafeBut State.idle) (their_flag_drop_isr_sequence o d)
unfolding their_flag_drop_isr_sequence number
drop-IsSafeBut o d taken safe =
    let d1 = record d { their_flag_drop_counter = d.their_flag_drop_counter + 1 } in
    if_both (Returns (IsSafeBut State.idle)) (d1.their_flag_drop_counter == 1 && d1.spi_master_mode)
      (try_leave_waiting_prev-IsSafeBut o d1 taken safe)
      (if_both (Returns (IsSafeBut State.idle)) (leb 3 d1.their_flag_drop_counter)
        (error_handle-IsSafeBut SpiError.other_side State.idle d1 refl safe) safe)

-- The switch from IDLE.
asked-IsSafeBut :
    (d : SymspiDev)
    → IsSafeBut State.idle d
    → let (switched, d') = switch_strict d State.idle State.xfer_prepare in
      (switched ≡ true → IsSafeBut State.xfer_prepare d')
      × (switched ≡ false → IsSafeBut State.idle d')
unfolding switch_strict number
asked-IsSafeBut d safe = (λ e. ground arith, λ e. ground arith)

set-IsSafeBut :
    (o : Outside) (d : SymspiDev)
    → o.spi_async ≡ true
    → IsSafeBut State.idle d
    → Returns (IsSafeBut State.idle) (their_flag_set_isr_sequence o d)
unfolding their_flag_set_isr_sequence
set-IsSafeBut o d taken safe =
    let (switched, d1) = switch_strict d State.idle State.xfer_prepare in
    let (prepared, off) = asked-IsSafeBut d safe in
    if_split (Returns (IsSafeBut State.idle)) switched
      (λ at.
        Returns-bind (λ (r : Result × SymspiDev). IsSafeBut State.idle r.1) (IsSafeBut State.idle)
          (xfer_prepare_to_waiting_prev_sequence o d1) (λ r. some r.1)
          (xfer_prepare_to_waiting_prev-IsSafeBut o d1 taken (prepared at)) (λ r safe'. safe'))
      (λ e.
        if_both (Returns (IsSafeBut State.idle)) (d1.spi_master_mode && not d1.hardware_spi_rdy)
          (try_leave_waiting_rdy-IsSafeBut o d1 taken (off e)) (off e))

pub their_flag_isr-IsSafeBut :
    (o : Outside) (d : SymspiDev)
    → o.spi_async ≡ true
    → IsSafeBut State.idle d
    → Returns (IsSafeBut State.idle) (their_flag_isr o d)
unfolding their_flag_isr number
their_flag_isr-IsSafeBut o d taken safe =
    if_both (Returns (IsSafeBut State.idle)) (same_state d.state State.cold) safe (
      Returns-bind (IsSafeBut State.idle) (IsSafeBut State.idle)
        (if o.their_flag then their_flag_set_isr_sequence o d else their_flag_drop_isr_sequence o d)
        _
        (if_both (Returns (IsSafeBut State.idle)) o.their_flag (set-IsSafeBut o d taken safe)
          (drop-IsSafeBut o d taken safe))
        (λ d' safe'. safe'))
