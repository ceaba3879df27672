-- ===== src/Symspi/Works.antt =====
-- What the works, the timers and the interrupts run.
use iccom_utils.Base.{ℕ, ◌+◌, ◌%◌, ◌^◌, Bool, true, false, not, ◌&&◌, Option, none, some}
use iccom_utils.Base.{◌==◌, leb, if◌then◌else◌}
use iccom_utils.Symspi.{
  State, SpiError, Result, success, failure, SpiXfer, Waiting, nowhere, to_go_on, to_give_up,
  SymspiDev,
}
use iccom_utils.Symspi.Xfer.{inc_current_xfer_counter}
use iccom_utils.Symspi.Switch.{number, same_state, switch_strict}
use iccom_utils.Symspi.Errors.{◌>>=◌, is_success, error_handle}
use iccom_utils.Symspi.Leave.{
  Outside, stop_timeout_timer, try_leave_waiting_prev_sequence, try_leave_waiting_rdy_sequence,
  xfer_prepare_to_waiting_prev_sequence,
}
use iccom_utils.Symspi.Exchange.{to_idle_sequence, update_xfer_sequence}

-- The answer of a callback: an error, which halts the device, NULL, or a new transfer.
pub data Reply : Type 0 where
  halt : Reply
  keep : Reply
  next : SpiXfer → Reply

-- The callback is not called if there is none.
pub called : Option ℕ → Reply → Reply
called none reply = keep
called (some callback) reply = reply

-- Our flag drops: at once on the master, after the wait on the slave.
unfoldable pub dropped_by : Bool → SymspiDev → SymspiDev
dropped_by now d = if now then record d { our_flag = false } else d

unfoldable pub wait_with : Waiting → SymspiDev → SymspiDev
unfolding dropped_by
wait_with waiting d = record (dropped_by d.spi_master_mode d) { postprocessing = waiting }

unfoldable pub starts : Option ℕ → Bool → Bool
starts none start = false
starts (some callback) start = start

unfoldable pub postprocessed : Outside → Reply → Bool → SymspiDev → Option SymspiDev
unfolding wait_with
postprocessed o halt start d = some d
postprocessed o keep start d = some (wait_with (to_go_on start) d)
postprocessed o (next xfer) start d = do
  (res, id, d') ← update_xfer_sequence o xfer State.postprocessing true d
  some (wait_with (if is_success res then to_go_on start else to_give_up) d')

-- `symspi_postprocessing_sequence` up to the loops that wait for the other side's flag.
unfoldable pub postprocessing_sequence : Outside → Reply → Bool → SymspiDev → Option SymspiDev
unfolding number called starts postprocessed
postprocessing_sequence o reply start d =
    let callback = d.current_xfer.done_callback in
    if same_state d.state State.postprocessing
    then postprocessed o (called callback reply) (starts callback start)
        (inc_current_xfer_counter d)
    else some d

-- The rest of it, once the counter is not 0.
unfoldable pub waited : Outside → Waiting → SymspiDev → Option SymspiDev
unfolding dropped_by
waited o nowhere d = some d
waited o to_give_up d =
    some (dropped_by (not d.spi_master_mode) (record d { postprocessing = nowhere }))
waited o (to_go_on start) d = do
  (_, d') ←
      to_idle_sequence o State.postprocessing start none
        (dropped_by (not d.spi_master_mode) (record d { postprocessing = nowhere }))
  some d'

unfoldable pub postprocessing_waits : Outside → SymspiDev → Option SymspiDev
unfolding waited
postprocessing_waits o d =
    if d.their_flag_drop_counter == 0 then some d else waited o d.postprocessing d

-- The end of the recovery.
unfoldable pub recovered : Outside → SymspiDev → Option (Result × SymspiDev)
recovered o d =
    to_idle_sequence o State.error true none
      (record d { their_flag_drop_counter = 1; last_error = none })

unfoldable pub replied : Outside → Reply → SymspiDev → Option (Result × SymspiDev)
unfolding recovered
replied o halt d = some (success, d)
replied o keep d = recovered o d
replied o (next xfer) d = do
  (res, id, d') ← update_xfer_sequence o xfer State.error true d
  if is_success res then recovered o d' else some (res, d')

-- `symspi_recovery_sequence`; at the end of the oscillation our flag is dropped.
unfoldable pub recovery_sequence : Outside → Reply → SymspiDev → Option (Result × SymspiDev)
unfolding number called replied stop_timeout_timer
recovery_sequence o reply d =
    if same_state d.state State.error
    then replied o (called d.current_xfer.fail_callback reply)
        (record (stop_timeout_timer d) { our_flag = false })
    else some (failure SpiError.logical, d)

-- `__symspi_other_side_wait_timeout`
unfoldable pub other_side_wait_timeout : SymspiDev → Option SymspiDev
other_side_wait_timeout d = error_handle SpiError.wait_other_side d

-- `__symspi_slave_tx_fill_timeout`: the flag is dropped and set again.
unfoldable pub slave_tx_fill_timeout : SymspiDev → SymspiDev
slave_tx_fill_timeout d = record d { our_flag = true; slave_tx_fill_timeout_timer = true }

-- `symspi_spi_xfer_tx_done_callback`
unfoldable pub spi_xfer_tx_done_callback : SymspiDev → SymspiDev
spi_xfer_tx_done_callback d =
    if d.spi_master_mode
    then d
    else record d { our_flag = true; slave_tx_fill_timeout_timer = true }

-- The transfer went fine, unless an error is postponed or the SPI layer has one.
unfoldable pub xfer_done : Option SpiError → Bool → SymspiDev → Option SymspiDev
xfer_done (some e) good d = error_handle e d
xfer_done none false d = error_handle SpiError.spi d
xfer_done none true d = some (record d {
  info = record (d.info) { xfers_done_ok = (d.info.xfers_done_ok + 1) % 2 ^ 64 };
  postprocessing_work = true;
})

-- `symspi_spi_xfer_done_callback`; `good` says that the status of the message is 0.
unfoldable pub spi_xfer_done_callback : Bool → SymspiDev → Option SymspiDev
unfolding xfer_done
spi_xfer_done_callback good d =
    let d' = if d.spi_master_mode then d else record d { slave_tx_fill_timeout_timer = false } in
    let (switched, d2) = switch_strict d' State.xfer State.postprocessing in
    if switched then xfer_done d2.last_error good d2 else error_handle SpiError.logical d2

-- `symspi_their_flag_drop_isr_sequence`
unfoldable pub their_flag_drop_isr_sequence : Outside → SymspiDev → Option SymspiDev
their_flag_drop_isr_sequence o d =
    let d' = record d { their_flag_drop_counter = d.their_flag_drop_counter + 1 } in
    if d'.their_flag_drop_counter == 1 && d'.spi_master_mode
    then some (try_leave_waiting_prev_sequence o d').1
    else if leb 3 d'.their_flag_drop_counter
    then error_handle SpiError.other_side d'
    else some d'

-- `symspi_their_flag_set_isr_sequence`
unfoldable pub their_flag_set_isr_sequence : Outside → SymspiDev → Option SymspiDev
their_flag_set_isr_sequence o d =
    let (switched, d') = switch_strict d State.idle State.xfer_prepare in
    let asked : Option SymspiDev = (do
      (_, d2) ← xfer_prepare_to_waiting_prev_sequence o d'
      some d2) in
    if switched
    then asked
    else if d'.spi_master_mode && not d'.hardware_spi_rdy
    then some (try_leave_waiting_rdy_sequence o d').1
    else some d'

-- `symspi_their_flag_isr`
unfoldable pub their_flag_isr : Outside → SymspiDev → Option SymspiDev
unfolding number their_flag_drop_isr_sequence their_flag_set_isr_sequence
their_flag_isr o d =
    let edge : Option SymspiDev = (do
      d' ←
          if o.their_flag then their_flag_set_isr_sequence o d else their_flag_drop_isr_sequence o d
      some (record d' {
        info = record (d'.info) { their_flag_edges = (d'.info.their_flag_edges + 1) % 2 ^ 64 };
      })) in
    if same_state d.state State.cold then some d else edge
