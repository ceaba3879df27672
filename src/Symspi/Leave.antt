-- ===== src/Symspi/Leave.antt =====
-- The way from XFER_PREPARE over the waiting states to the start of the SPI transfer.
use iccom_utils.Base.{Bool, true, false, not, ◌&&◌, ◌||◌, Option, none, some}
use iccom_utils.Base.{◌==◌, if◌then◌else◌}
use iccom_utils.Symspi.{State, SpiError, Result, success, failure, SymspiDev}
use iccom_utils.Symspi.Switch.{switch_strict}
use iccom_utils.Symspi.Errors.{◌>>=◌, is_success, try_to_error_sequence}
use iccom_utils.Symspi.Xfer.{Block}

-- What a step meets outside of the driver: the level of the other side's line, whether `spi_async`
-- takes the message, and the memory for a resized transfer.
pub record Outside : Type 0 where
  pub their_flag : Bool
  pub spi_async : Bool
  pub tx : Block
  pub rx : Block

unfoldable pub stop_timeout_timer : SymspiDev → SymspiDev
stop_timeout_timer d = record d { wait_timeout_timer = false }

unfoldable pub restart_timeout_timer : SymspiDev → SymspiDev
restart_timeout_timer d = record d { wait_timeout_timer = true }

unfoldable pub is_their_request : Outside → SymspiDev → Bool
is_their_request o d = d.their_flag_drop_counter == 1 && o.their_flag

unfoldable pub do_xfer : Outside → SymspiDev → Result × SymspiDev
do_xfer o d =
    let d' = record d { their_flag_drop_counter = 0 } in
    if o.spi_async then (success, record d' { spi_msg = true }) else (failure SpiError.spi, d')

unfoldable pub try_leave_waiting_rdy_sequence : Outside → SymspiDev → Result × SymspiDev
unfolding do_xfer stop_timeout_timer
try_leave_waiting_rdy_sequence o d =
    let (switched, d') = switch_strict d State.waiting_rdy State.xfer in
    if switched then do_xfer o (stop_timeout_timer d') else (success, d')

unfoldable pub try_leave_waiting_prev_sequence : Outside → SymspiDev → Result × SymspiDev
unfolding do_xfer stop_timeout_timer restart_timeout_timer is_their_request
    try_leave_waiting_rdy_sequence
try_leave_waiting_prev_sequence o d =
    let (started, d1) = switch_strict d State.waiting_prev State.xfer in
    let (waiting, d2) = switch_strict d State.waiting_prev State.waiting_rdy in
    let d3 = restart_timeout_timer d2 in
    if not d.spi_master_mode
    then if started then do_xfer o (stop_timeout_timer d1) else (failure SpiError.logical, d1)
    else if d.hardware_spi_rdy
    then if started then do_xfer o (stop_timeout_timer d1) else (success, d1)
    else if waiting
    then if is_their_request o d3 then try_leave_waiting_rdy_sequence o d3 else (success, d3)
    else (success, d2)

-- The part of `symspi_xfer_prepare_to_waiting_prev_sequence` behind the check for errors.
unfoldable pub to_waiting_prev : Outside → SymspiDev → Result × SymspiDev
unfolding restart_timeout_timer try_leave_waiting_prev_sequence
to_waiting_prev o d =
    let (switched, d1) = switch_strict d State.xfer_prepare State.waiting_prev in
    let d2 = if switched then restart_timeout_timer d1 else d1 in
    if d2.their_flag_drop_counter == 1 || not d2.spi_master_mode
    then try_leave_waiting_prev_sequence o d2
    else (success, d2)

unfoldable pub raised : SymspiDev → SymspiDev
raised d = if d.spi_master_mode then record d { our_flag = true } else d

unfoldable pub xfer_prepare_to_waiting_prev_sequence :
    Outside → SymspiDev → Option (Result × SymspiDev)
unfolding to_waiting_prev raised
xfer_prepare_to_waiting_prev_sequence o d = do
  (res, d') ← try_to_error_sequence none (raised d)
  if is_success res then some (to_waiting_prev o d') else some (res, d')
