-- ===== src/Symspi/Machine/Alive.antt =====
-- The steps of an open device that the consumer does not halt.
use iccom_utils.Base.{if_both, if_split, ◌≡◌, refl, Bool, true, false, ◌&&◌, some, List, [], ◌∷◌}
use iccom_utils.Symspi.{State, SymspiDev, Result}
use iccom_utils.Symspi.Leave.{Outside}
use iccom_utils.Symspi.Xfer.{inc_current_xfer_counter}
use iccom_utils.Symspi.Exchange.{data_xchange, default_data_update}
use iccom_utils.Symspi.Works.{
  called, slave_tx_fill_timeout, spi_xfer_tx_done_callback, recovery_sequence,
}
use iccom_utils.Symspi.Safe.{
  is_nowhere, IsSafeBut, Returns, Returns-bind, After, Returns-bind-After,
}
use iccom_utils.Symspi.Safe.Exchange.{Settled}
use iccom_utils.Symspi.Safe.Request.{
  AcceptsDefault, data_xchange-Settled, default_data_update-Settled,
}
use iccom_utils.Symspi.Safe.Works.{
  AcceptsReply, silenced, postprocessing-IsSafeBut, postprocessing_waits-IsSafeBut, recovery-Over,
}
use iccom_utils.Symspi.Safe.Interrupts.{
  timeout-IsSafeBut, spi_xfer_done-IsSafeBut, their_flag_isr-IsSafeBut,
}
use iccom_utils.Symspi.Machine.{
  Event, xchange, update, flag_edge, tx_done, done, wait_timeout, tx_fill_timeout, postprocess,
  look, recover, step, run,
}

-- An open device that is idle, or in a state with something pending that wakes it up.
abbrev pub IsAlive : SymspiDev → Type 0
IsAlive = IsSafeBut State.idle

-- The SPI layer takes the message, the consumer does not halt the device, and the new transfers of
-- an update and of the callbacks are accepted.
abbrev pub Goes : Outside → Event → SymspiDev → Type 0
Goes o (update xfer force) d = (o.spi_async ≡ true) × AcceptsDefault o xfer force d
Goes o (postprocess reply start) d =
    (o.spi_async ≡ true)
    × AcceptsReply o (called d.current_xfer.done_callback reply)
        (inc_current_xfer_counter (record d { postprocessing_work = false }))
Goes o (recover reply) d =
    (o.spi_async ≡ true) × AcceptsReply o (called d.current_xfer.fail_callback reply) (silenced d)
Goes o e d = o.spi_async ≡ true

and_parts : (a b : Bool) → a && b ≡ true → (a ≡ true) × (b ≡ true)
and_parts true b h = (refl, h)
and_parts false b h = cc

tx_done-IsAlive : (d : SymspiDev) → IsAlive d → IsAlive (spi_xfer_tx_done_callback d)
unfolding spi_xfer_tx_done_callback
tx_done-IsAlive d safe = if_both IsAlive d.spi_master_mode safe safe

pub step-IsAlive :
    (o : Outside) (e : Event) (d : SymspiDev)
    → Goes o e d
    → IsAlive d
    → Returns IsAlive (step o e d)
unfolding step slave_tx_fill_timeout
step-IsAlive o (xchange xfer force) d taken safe =
    Returns-bind Settled IsAlive (data_xchange o xfer force d) (λ r. some r.2)
      (data_xchange-Settled o xfer force d taken safe) (λ r safe'. safe')
step-IsAlive o (update xfer force) d (taken, accepted) safe =
    Returns-bind Settled IsAlive (default_data_update o xfer force d) (λ r. some r.2)
      (default_data_update-Settled o xfer force d taken accepted safe) (λ r safe'. safe')
step-IsAlive o flag_edge d taken safe = their_flag_isr-IsSafeBut o d taken safe
step-IsAlive o tx_done d taken safe =
    if_both (Returns IsAlive) d.spi_msg (tx_done-IsAlive d safe) safe
step-IsAlive o (done good) d taken safe =
    if_split (Returns IsAlive) d.spi_msg (λ running. spi_xfer_done-IsSafeBut good d running safe)
      (λ e. safe)
step-IsAlive o wait_timeout d taken safe =
    if_both (Returns IsAlive) d.wait_timeout_timer (timeout-IsSafeBut d safe) safe
step-IsAlive o tx_fill_timeout d taken safe =
    if_both (Returns IsAlive) d.slave_tx_fill_timeout_timer safe safe
step-IsAlive o (postprocess reply start) d (taken, accepted) safe =
    if_split (Returns IsAlive) (d.postprocessing_work && is_nowhere d.postprocessing)
      (λ ready.
        let (queued, free) = and_parts d.postprocessing_work (is_nowhere d.postprocessing) ready in
        postprocessing-IsSafeBut o reply start d accepted queued free safe)
      (λ e. safe)
step-IsAlive o look d taken safe = postprocessing_waits-IsSafeBut o d taken safe
step-IsAlive o (recover reply) d (taken, accepted) safe =
    if_split (Returns IsAlive) (d.recover_work && is_nowhere d.postprocessing)
      (λ ready.
        let (queued, free) = and_parts d.recover_work (is_nowhere d.postprocessing) ready in
        Returns-bind (λ (r : Result × SymspiDev). IsAlive r.1) IsAlive
          (recovery_sequence o reply (record d { recover_work = false })) (λ r. some r.1)
          (recovery-Over o reply d taken accepted free safe) (λ r safe'. safe'))
      (λ e. safe)

-- Every event of a sequence meets a device and an outside at which it goes on.
abbrev pub GoesOn : List (Outside × Event) → SymspiDev → Type 0
GoesOn [] d = Unit {0}
GoesOn ((o, e) ∷ events) d = Goes o e d × After (GoesOn events) (step o e d)

-- An open device is alive: it is idle, or waits for the other side with the timer running, or is
-- in XFER with a message in the SPI layer, or in POSTPROCESSING with the work queued or waiting
-- for the other side's flag, or in ERROR with the recovery queued. Its SPI device and GPIOs are
-- there, the SPI layer works only in XFER, and the postprocessing waits only in POSTPROCESSING or
-- ERROR. Then for every sequence of requests, edges of the other side's flag, SPI callbacks,
-- timeouts and works at which the SPI layer takes the messages, the consumer does not halt the
-- device and its transfers of default updates and callbacks are accepted, every handler returns,
-- and the device is open and alive again.
pub run-IsAlive :
    (events : List (Outside × Event)) (d : SymspiDev)
    → GoesOn events d
    → IsAlive d
    → Returns IsAlive (run events d)
unfolding run
run-IsAlive [] d going safe = safe
run-IsAlive ((o, e) ∷ events) d (goes, later) safe =
    Returns-bind-After IsAlive (GoesOn events) IsAlive (step o e d) (run events)
      (step-IsAlive o e d goes safe) later (λ d' safe' going. run-IsAlive events d' going safe')
