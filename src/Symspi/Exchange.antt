-- ===== src/Symspi/Exchange.antt =====
-- The requests for a transfer, the update of the current one, and the way back to IDLE.
use iccom_utils.Base.{ℕ, suc, ◌-◌, Bool, true, false, not, ◌||◌, Option, none, some}
use iccom_utils.Base.{◌==◌, ltb, if◌then◌else◌}
use iccom_utils.Symspi.{
  State, SpiError, Result, success, failure, Pointer, null, live, dangling, SpiXfer, SymspiDev,
}
use iccom_utils.Symspi.Xfer.{get_next_xfer_id, replace_xfer}
use iccom_utils.Symspi.Switch.{number, same_state, switch_strict}
use iccom_utils.Symspi.Errors.{◌>>=◌, is_success, try_to_error_sequence}
use iccom_utils.Symspi.Leave.{
  Outside, stop_timeout_timer, is_their_request, xfer_prepare_to_waiting_prev_sequence,
}

-- The result, the ID that was written to the consumer's transfer, and the device.
abbrev pub Updated : Type 0
Updated = Option (Result × Option ℕ × SymspiDev)

pub is_null_pointer : Pointer → Bool
is_null_pointer null = true
is_null_pointer (live address bytes) = false
is_null_pointer (dangling address) = false

-- `symspi_verify_consumer_input`; a transfer is checked if there is one.
unfoldable pub verify_consumer_input : SymspiDev → Option SpiXfer → Option SpiError
unfolding is_null_pointer
verify_consumer_input d none =
    if not d.spi then some SpiError.no_spi else if not d.gpios then some SpiError.no_gpio else none
verify_consumer_input d (some xfer) =
    if not d.spi
    then some SpiError.no_spi
    else if not d.gpios
    then some SpiError.no_gpio
    else if xfer.size_bytes == 0 || is_null_pointer xfer.data_tx
    then some SpiError.no_xfer
    else none

-- `symspi_switch_to_xfer_prepare_sequence` behind the check of the input, with what updates the
-- current transfer.
unfoldable pub prepared : (SymspiDev → Updated) → State → SymspiDev → Updated
prepared update original d =
    let (switched, d') = switch_strict d original State.xfer_prepare in
    let rest : Updated = (do
      (res, d2) ← try_to_error_sequence none d'
      if is_success res then update d2 else some (res, none, d2)) in
    if switched then rest else some (failure SpiError.not_ready, none, d')

unfoldable pub checked_input : Option SpiError → (SymspiDev → Updated) → State → SymspiDev → Updated
unfolding prepared
checked_input (some e) update original d = some (failure e, none, d)
checked_input none update original d = prepared update original d

unfoldable pub switch_to_xfer_prepare_sequence :
    Option SpiXfer → (SymspiDev → Updated) → State → SymspiDev → Updated
unfolding checked_input
switch_to_xfer_prepare_sequence xfer update original d =
    checked_input (verify_consumer_input d xfer) update original d

-- What follows in `symspi_do_data_xchange`; `repeated` says that there is no new transfer and that
-- the expected state was IDLE.
unfoldable pub xchanged : Outside → Bool → Result → Option ℕ → SymspiDev → Updated
xchanged o repeated success id d = do
  (res, d') ← xfer_prepare_to_waiting_prev_sequence o d
  some (res, id, d')
xchanged o true (failure SpiError.not_ready) id d = some (
  failure SpiError.not_ready,
  none,
  record d { delayed_xfer_request = suc d.delayed_xfer_request },
)
xchanged o repeated (failure e) id d = some (failure e, none, d)

-- `symspi_do_data_xchange` without a new transfer.
unfoldable pub repeat_xchange : Outside → State → SymspiDev → Updated
unfolding switch_to_xfer_prepare_sequence xchanged number
repeat_xchange o original d =
    let rest : Updated = (do
      (res, id, d') ←
          switch_to_xfer_prepare_sequence none (λ d1. some (success, none, d1)) original d
      xchanged o (same_state original State.idle) res id d') in
    if d.close_request then some (failure SpiError.not_ready, none, d) else rest

-- The end of `symspi_to_idle_sequence`.
unfoldable pub checked_idle :
    State → Option SpiError → Bool → SymspiDev → Option (Result × SymspiDev)
unfolding number
checked_idle original internal_error started d =
    if started || same_state original State.error
    then some (success, d)
    else try_to_error_sequence internal_error d

-- The next transfer is started, or the device goes to IDLE.
unfoldable pub started_or_idle : Outside → State → Bool → SymspiDev → Option (Bool × SymspiDev)
unfolding is_their_request
started_or_idle o original start d =
    let again : Option (Bool × SymspiDev) = (do
      (res, id, d') ← repeat_xchange o original d
      some (is_success res, d')) in
    if start || is_their_request o d
    then again
    else some (false, (switch_strict d original State.idle).1)

unfoldable pub to_idle_sequence :
    Outside → State → Bool → Option SpiError → SymspiDev → Option (Result × SymspiDev)
unfolding stop_timeout_timer
to_idle_sequence o original start_next_xfer internal_error d = do
  (started, d') ←
      started_or_idle o original (start_next_xfer || ltb 0 d.delayed_xfer_request)
        (record (stop_timeout_timer d) { delayed_xfer_request = d.delayed_xfer_request - 1 })
  checked_idle original internal_error started d'

-- The error that a failed update leads to.
pub update_error : SpiError → Option SpiError
update_error SpiError.logical = some SpiError.logical
update_error SpiError.no_memory = some SpiError.no_memory
update_error e = none

abbrev pub result_of : Option SpiError → Result
result_of none = success
result_of (some e) = failure e

-- What follows the replacement in `symspi_update_xfer_sequence`.
unfoldable pub updated : Outside → State → ℕ → Result → SymspiDev → Updated
unfolding update_error number
updated o original id success d = some (success, some id, d)
updated o original id (failure e) d =
    let rest : Updated = (do
      (_, d') ← to_idle_sequence o original false (update_error e) d
      some (result_of (update_error e), some id, d')) in
    if same_state original State.error then some (result_of (update_error e), some id, d) else rest

-- The replacement by a transfer with the next ID.
unfoldable pub replaced : Outside → SpiXfer → Bool → SymspiDev → Result × SymspiDev
replaced o xfer force d =
    let (id, d1) = get_next_xfer_id d in
    replace_xfer d1 (record xfer { id = id; xfers_counter = 0 }) force o.tx o.rx

unfoldable pub update_xfer_sequence : Outside → SpiXfer → State → Bool → SymspiDev → Updated
unfolding updated
update_xfer_sequence o xfer original force d =
    let (res, d') = replaced o xfer force d in updated o original (get_next_xfer_id d).0 res d'

-- `symspi_data_xchange`
unfoldable pub data_xchange : Outside → Option SpiXfer → Bool → SymspiDev → Updated
unfolding repeat_xchange switch_to_xfer_prepare_sequence xchanged
data_xchange o none force d = repeat_xchange o State.idle d
data_xchange o (some xfer) force d =
    let update = λ (d1 : SymspiDev). update_xfer_sequence o xfer State.xfer_prepare force d1 in
    let rest : Updated = (do
      (res, id, d') ← switch_to_xfer_prepare_sequence (some xfer) update State.idle d
      xchanged o false res id d') in
    if d.close_request then some (failure SpiError.not_ready, none, d) else rest

unfoldable pub default_updated : Outside → Result → Option ℕ → SymspiDev → Updated
default_updated o (failure e) id d = some (failure e, none, d)
default_updated o success id d = do
  (res, d') ← to_idle_sequence o State.xfer_prepare false none d
  some (res, none, d')

unfoldable pub update_of : Outside → Option SpiXfer → Bool → SymspiDev → Updated
update_of o none force d = some (success, none, d)
update_of o (some xfer) force d = update_xfer_sequence o xfer State.xfer_prepare force d

-- `symspi_default_data_update`
unfoldable pub default_data_update : Outside → Option SpiXfer → Bool → SymspiDev → Updated
unfolding default_updated update_of switch_to_xfer_prepare_sequence
default_data_update o xfer force d =
    let rest : Updated = (do
      (res, id, d') ← switch_to_xfer_prepare_sequence xfer (update_of o xfer force) State.idle d
      default_updated o res id d') in
    if d.close_request then some (failure SpiError.not_ready, none, d) else rest
