-- ===== src/Symspi/Machine/Frozen/Run.antt =====
-- Events at a device in XFER.
use iccom_utils.Base.{
  subst, arith, if_both, if_split, ◌+◌, ◌≡◌, refl, sym, ap, ◌∙◌, Bool, true, false, not, ◌&&◌, ◌||◌,
  ◌==◌, leb, none, some, List, [], ◌∷◌, if◌then◌else◌,
}
use iccom_utils.Symspi.{
  State, SpiError, Waiting, nowhere, to_go_on, to_give_up, SymspiDev, Result, failure,
}
use iccom_utils.Symspi.Switch.{number, same_state}
use iccom_utils.Symspi.Switch.Open.{missed, hit}
use iccom_utils.Symspi.Leave.{do_xfer, stop_timeout_timer, Outside, try_leave_waiting_prev_sequence}
use iccom_utils.Symspi.Exchange.{data_xchange, default_data_update, to_idle_sequence}
use iccom_utils.Symspi.Works.{
  Reply, dropped_by, postprocessing_sequence, waited, postprocessing_waits, recovery_sequence,
  other_side_wait_timeout, slave_tx_fill_timeout, spi_xfer_tx_done_callback,
  their_flag_drop_isr_sequence, their_flag_set_isr_sequence, their_flag_isr,
}
use iccom_utils.Symspi.Safe.{is_nowhere, Returns, Returns-bind}
use iccom_utils.Symspi.Machine.{
  Event, xchange, update, flag_edge, tx_done, done, wait_timeout, tx_fill_timeout, postprocess,
  look, recover, step, run,
}
use iccom_utils.Symspi.Machine.Frozen.{Frozen, error_handle-Frozen, rdy-Frozen, prev-Frozen}
use iccom_utils.Symspi.Machine.Frozen.Requests.{
  to_idle-Frozen, data_xchange-Frozen, default_data_update-Frozen, FrozenUpdate,
}

-- Not the end of the transfer that runs.
abbrev pub is_end : Event → Bool
is_end (done good) = true
is_end e = false

-- Whether a transfer ends.
abbrev pub any_end : List (Outside × Event) → Bool
any_end [] = false
any_end ((o, e) ∷ events) = is_end e || any_end events

no_end : (a b c : Bool) → (a || b) && c ≡ false → (a && c ≡ false) × (b && c ≡ false)
no_end true b true h = cc
no_end true true false h = (refl, refl)
no_end true false false h = (refl, refl)
no_end false b c h = (refl, h)

and_false : (a b : Bool) → b ≡ false → a && b ≡ false
and_false true b h = h
and_false false b h = refl

module _ (d0 : SymspiDev) where
  waited-Frozen :
      (o : Outside) (waiting : Waiting) (d : SymspiDev)
      → Frozen d0 d
      → Returns (Frozen d0) (waited o waiting d)
  unfolding waited dropped_by number
  waited-Frozen o nowhere d h = h
  waited-Frozen o to_give_up d h = if_both (Frozen d0) (not d.spi_master_mode) h h
  waited-Frozen o (to_go_on start) d h =
      let d1 = dropped_by (not d.spi_master_mode) (record d { postprocessing = nowhere }) in
      Returns-bind (λ (r : Result × SymspiDev). Frozen d0 r.1) (Frozen d0)
        (to_idle_sequence o State.postprocessing start none d1) (λ r. some r.1)
        (to_idle-Frozen d0 o State.postprocessing start none d1 refl
          (if_both (Frozen d0) (not d.spi_master_mode) h h))
        (λ r h'. h')

  recovery-Frozen :
      (o : Outside) (reply : Reply) (d : SymspiDev)
      → Frozen d0 d
      → Returns (λ r. Frozen d0 r.1) (recovery_sequence o reply d)
  unfolding recovery_sequence number
  recovery-Frozen o reply d h = simp (ap number h.1) h

  set-Frozen :
      (o : Outside) (d : SymspiDev)
      → Frozen d0 d
      → Returns (Frozen d0) (their_flag_set_isr_sequence o d)
  unfolding their_flag_set_isr_sequence number
  set-Frozen o d h = simp (missed d State.xfer h.1 h.0 State.idle State.xfer_prepare refl) (
      if_both (Returns (Frozen d0)) (d.spi_master_mode && not d.hardware_spi_rdy)
        (rdy-Frozen d0 o d h) h)

  drop-Frozen :
      (o : Outside) (d : SymspiDev)
      → Frozen d0 d
      → Returns (Frozen d0) (their_flag_drop_isr_sequence o d)
  unfolding their_flag_drop_isr_sequence
  drop-Frozen o d h =
      let d1 = record d { their_flag_drop_counter = d.their_flag_drop_counter + 1 } in
      if_both (Returns (Frozen d0)) (d1.their_flag_drop_counter == 1 && d1.spi_master_mode)
        (prev-Frozen d0 o d1 h)
        (if_both (Returns (Frozen d0)) (leb 3 d1.their_flag_drop_counter)
          (error_handle-Frozen d0 SpiError.other_side d1 h) h)

  isr-Frozen :
      (o : Outside) (d : SymspiDev) → Frozen d0 d → Returns (Frozen d0) (their_flag_isr o d)
  unfolding their_flag_isr
  isr-Frozen o d h = if_both (Returns (Frozen d0)) (same_state d.state State.cold) h (
      Returns-bind (Frozen d0) (Frozen d0)
        (if o.their_flag then their_flag_set_isr_sequence o d else their_flag_drop_isr_sequence o d)
        _ (if_both (Returns (Frozen d0)) o.their_flag (set-Frozen o d h) (drop-Frozen o d h))
        (λ d' h'. h'))

  pub step-Frozen :
      (o : Outside) (e : Event) (d : SymspiDev)
      → is_end e && d.spi_msg ≡ false
      → Frozen d0 d
      → Returns (Frozen d0) (step o e d)
  unfolding step slave_tx_fill_timeout spi_xfer_tx_done_callback other_side_wait_timeout
      postprocessing_sequence postprocessing_waits number
  step-Frozen o (xchange xfer force) d other h =
      Returns-bind (FrozenUpdate d0) (Frozen d0) (data_xchange o xfer force d) (λ r. some r.2)
        (data_xchange-Frozen d0 o xfer force d h) (λ r h'. h'.1)
  step-Frozen o (update xfer force) d other h =
      Returns-bind (FrozenUpdate d0) (Frozen d0) (default_data_update o xfer force d)
        (λ r. some r.2) (default_data_update-Frozen d0 o xfer force d h) (λ r h'. h'.1)
  step-Frozen o flag_edge d other h = isr-Frozen o d h
  step-Frozen o tx_done d other h =
      if_both (Returns (Frozen d0)) d.spi_msg (if_both (Frozen d0) d.spi_master_mode h h) h
  step-Frozen o (done good) d other h =
      if_split (Returns (Frozen d0)) d.spi_msg (λ running. cc) (λ e. h)
  step-Frozen o wait_timeout d other h =
      if_both (Returns (Frozen d0)) d.wait_timeout_timer
        (error_handle-Frozen d0 SpiError.wait_other_side (record d { wait_timeout_timer = false })
          h)
        h
  step-Frozen o tx_fill_timeout d other h =
      if_both (Returns (Frozen d0)) d.slave_tx_fill_timeout_timer h h
  step-Frozen o (postprocess reply start) d other h =
      if_both (Returns (Frozen d0)) (d.postprocessing_work && is_nowhere d.postprocessing)
        (simp (ap number h.1) h) h
  step-Frozen o look d other h =
      if_both (Returns (Frozen d0)) (d.their_flag_drop_counter == 0) h
        (waited-Frozen o d.postprocessing d h)
  step-Frozen o (recover reply) d other h =
      if_both (Returns (Frozen d0)) (d.recover_work && is_nowhere d.postprocessing)
        (Returns-bind (λ (r : Result × SymspiDev). Frozen d0 r.1) (Frozen d0)
          (recovery_sequence o reply (record d { recover_work = false })) (λ r. some r.1)
          (recovery-Frozen o reply (record d { recover_work = false }) h) (λ r h'. h'))
        h

  run_from-Frozen :
      (events : List (Outside × Event)) (d : SymspiDev)
      → any_end events && d0.spi_msg ≡ false
      → Frozen d0 d
      → Returns (Frozen d0) (run events d)
  unfolding run
  run_from-Frozen [] d other h = h
  run_from-Frozen ((o, e) ∷ events) d other h =
      let (now, later) = no_end (is_end e) (any_end events) d0.spi_msg other in
      Returns-bind (Frozen d0) (Frozen d0) (step o e d) (run events)
        (step-Frozen o e d (ap (λ b. is_end e && b) h.4 ∙ now) h)
        (λ d' h'. run_from-Frozen events d' later h')

-- From an open device in XFER, for every sequence of requests, edges of the other side's flag,
-- timeouts, works and SPI callbacks but the one for the end of the transfer, every handler
-- returns, the device is still open and in XFER, and the current transfer, the buffers of the SPI
-- layer's transfer and its pending message are exactly as before.
pub run-Frozen :
    (events : List (Outside × Event)) (d : SymspiDev)
    → d.close_request ≡ false
    → d.state ≡ State.xfer
    → any_end events ≡ false
    → Returns (Frozen d) (run events d)
run-Frozen events d opened at none_ends =
    run_from-Frozen d events d (ap (λ b. b && d.spi_msg) none_ends) (opened, at, refl, refl, refl)

-- The device after the message was refused.
abbrev pub given_up : SymspiDev → SymspiDev
given_up d = record d {
  state = State.xfer;
  wait_timeout_timer = false;
  their_flag_drop_counter = 0;
}

try_leave-refused :
    (o : Outside) (d : SymspiDev)
    → d.close_request ≡ false
    → d.state ≡ State.waiting_prev
    → d.spi_master_mode ≡ false
    → o.spi_async ≡ false
    → try_leave_waiting_prev_sequence o d ≡ (failure SpiError.spi, given_up d)
unfolding try_leave_waiting_prev_sequence do_xfer stop_timeout_timer number
try_leave-refused o d opened at slave refusal =
    let P = λ (r : Result × SymspiDev). r ≡ (failure SpiError.spi, given_up d) in
    simp (hit d State.waiting_prev at opened State.waiting_prev State.xfer refl) (
      if_split P (not d.spi_master_mode)
        (λ e. if_split P o.spi_async (λ taken. absurd (ground arith)) (λ e'. refl))
        (λ master. absurd (ground arith)))

-- If the SPI layer refuses the message of an open slave in WAITING_PREV for which no message is
-- pending, the SPI error is returned, and for every sequence of events afterwards every handler
-- returns, the device stays open and in XFER with the same transfer, and no message is ever
-- pending.
pub run-stuck :
    (o : Outside) (d : SymspiDev) (events : List (Outside × Event))
    → d.close_request ≡ false
    → d.state ≡ State.waiting_prev
    → d.spi_master_mode ≡ false
    → d.spi_msg ≡ false
    → o.spi_async ≡ false
    → let (result, d') = try_leave_waiting_prev_sequence o d in
      (result ≡ failure SpiError.spi) × Returns (Frozen d') (run events d') × (d'.spi_msg ≡ false)
unfolding number
run-stuck o d events opened at slave unsent refusal =
    let d' = given_up d in
    subst
      (λ r.
        (r.0 ≡ failure SpiError.spi)
        × Returns (Frozen r.1) (run events r.1)
        × (r.1.spi_msg ≡ false))
      (sym (try_leave-refused o d opened at slave refusal))
      (
        refl,
        run_from-Frozen d' events d' (and_false (any_end events) d.spi_msg unsent)
            (opened, refl, refl, refl, refl),
        unsent,
      )
