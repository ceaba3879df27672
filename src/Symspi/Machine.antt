-- ===== src/Symspi/Machine.antt =====
-- The steps of a device: a context runs at a time, where it is pending. The recovery, which sleeps
-- for at least 10 ms, is not over before the postprocessing has seen the other side's flag.
pub mod Alive
pub mod Frozen
pub mod Pair
mod Tests
use iccom_utils.Base.{Bool, true, false, ◌&&◌, Option, none, some, List, [], ◌∷◌, if◌then◌else◌}
use iccom_utils.Symspi.{SpiXfer, Waiting, nowhere, to_go_on, to_give_up, SymspiDev}
use iccom_utils.Symspi.Errors.{◌>>=◌}
use iccom_utils.Symspi.Leave.{Outside}
use iccom_utils.Symspi.Exchange.{data_xchange, default_data_update}
use iccom_utils.Symspi.Works.{
  Reply, postprocessing_sequence, postprocessing_waits, recovery_sequence, other_side_wait_timeout,
  slave_tx_fill_timeout, spi_xfer_tx_done_callback, spi_xfer_done_callback, their_flag_isr,
}
use iccom_utils.Symspi.Safe.{is_nowhere}

-- Calls of the consumer, an edge of the other side's flag, the callbacks of the SPI layer, the
-- timers and the works.
pub data Event : Type 0 where
  xchange : Option SpiXfer → Bool → Event
  update : Option SpiXfer → Bool → Event
  flag_edge : Event
  tx_done : Event
  done : Bool → Event
  wait_timeout : Event
  tx_fill_timeout : Event
  postprocess : Reply → Bool → Event
  look : Event
  recover : Reply → Event

-- A context runs if it is pending.
abbrev pub pending : Bool → SymspiDev → Option SymspiDev → Option SymspiDev
pending ready d run = if ready then run else some d

pub step : Outside → Event → SymspiDev → Option SymspiDev
step o (xchange xfer force) d = do (_, _, d') ← data_xchange o xfer force d; some d'
step o (update xfer force) d = do (_, _, d') ← default_data_update o xfer force d; some d'
step o flag_edge d = their_flag_isr o d
step o tx_done d = pending d.spi_msg d (some (spi_xfer_tx_done_callback d))
step o (done good) d =
    pending d.spi_msg d (spi_xfer_done_callback good (record d { spi_msg = false }))
step o wait_timeout d =
    pending d.wait_timeout_timer d
      (other_side_wait_timeout (record d { wait_timeout_timer = false }))
step o tx_fill_timeout d = pending d.slave_tx_fill_timeout_timer d (some (slave_tx_fill_timeout d))
step o (postprocess reply start) d =
    pending (d.postprocessing_work && is_nowhere d.postprocessing) d
      (postprocessing_sequence o reply start (record d { postprocessing_work = false }))
step o look d = postprocessing_waits o d
step o (recover reply) d =
    let run : Option SymspiDev = (do
      (_, d') ← recovery_sequence o reply (record d { recover_work = false })
      some d') in
    pending (d.recover_work && is_nowhere d.postprocessing) d run

-- Events one after the other, each with what it meets outside.
pub run : List (Outside × Event) → SymspiDev → Option SymspiDev
run [] d = some d
run ((o, e) ∷ events) d = do d' ← step o e d; run events d'
