-- ===== src/Symspi/Safe/Works.antt =====
-- The works.
use iccom_utils.Base.{
  if_both, if_split, ◌≡◌, refl, sym, subst, arith, Bool, true, false, not, ◌==◌, none, some,
}
use iccom_utils.Symspi.{State, Waiting, nowhere, to_go_on, to_give_up, SymspiDev, Result}
use iccom_utils.Symspi.Switch.{number, same_state}
use iccom_utils.Symspi.Leave.{Outside, stop_timeout_timer}
use iccom_utils.Symspi.Xfer.{inc_current_xfer_counter}
use iccom_utils.Symspi.Xfer.Frame.{inc_current_xfer_counter-frame}
use iccom_utils.Symspi.Exchange.{replaced, to_idle_sequence}
use iccom_utils.Symspi.Works.{
  Reply, halt, keep, next, called, starts, dropped_by, wait_with, postprocessed,
  postprocessing_sequence, waited, postprocessing_waits, recovered, replied, recovery_sequence,
}
use iccom_utils.Symspi.Safe.{is_waiting, is_nowhere, IsSafeBut, Returns, Returns-bind}
use iccom_utils.Symspi.Safe.Exchange.{IsFree}
use iccom_utils.Symspi.Safe.Idle.{to_idle-IsSafeBut}
use iccom_utils.Symspi.Safe.Update.{Accepts, replaced-keeps, update-accepted}

-- The consumer does not halt the device, and its transfer is accepted.
abbrev pub AcceptsReply : Outside → Reply → SymspiDev → Type 0
AcceptsReply o halt d = ⊥
AcceptsReply o keep d = Unit {0}
AcceptsReply o (next xfer) d = Accepts o xfer true d

-- The device in POSTPROCESSING, while the work runs.
abbrev Running : SymspiDev → Type 0
Running d = IsSafeBut State.postprocessing d × (same_state d.state State.postprocessing ≡ true)

wait_with-IsSafeBut :
    (start : Bool) (d : SymspiDev) → Running d → IsSafeBut State.idle (wait_with (to_go_on start) d)
unfolding wait_with number
wait_with-IsSafeBut start d h = ground arith

postprocessed-IsSafeBut :
    (o : Outside) (reply : Reply) (start : Bool) (d : SymspiDev)
    → AcceptsReply o reply d
    → Running d
    → Returns (IsSafeBut State.idle) (postprocessed o reply start d)
unfolding postprocessed
postprocessed-IsSafeBut o halt start d accepted h = absurd accepted
postprocessed-IsSafeBut o keep start d accepted h = wait_with-IsSafeBut start d h
postprocessed-IsSafeBut o (next xfer) start d accepted h =
    simp (update-accepted o xfer State.postprocessing true d accepted) (
      wait_with-IsSafeBut start (replaced o xfer true d).1
        (replaced-keeps Running o xfer true d (λ d1 id. h)))

pub postprocessing-IsSafeBut :
    (o : Outside) (reply : Reply) (start : Bool) (d : SymspiDev)
    → AcceptsReply o
        (called d.current_xfer.done_callback reply)
        (inc_current_xfer_counter (record d { postprocessing_work = false }))
    → d.postprocessing_work ≡ true
    → is_nowhere d.postprocessing ≡ true
    → IsSafeBut State.idle d
    → Returns
        (IsSafeBut State.idle)
        (postprocessing_sequence o reply start (record d { postprocessing_work = false }))
unfolding postprocessing_sequence number
postprocessing-IsSafeBut o reply start d accepted queued free safe =
    let d1 = record d { postprocessing_work = false } in
    if_split (Returns (IsSafeBut State.idle)) (same_state d.state State.postprocessing)
      (λ at.
        let running : Running d1 = (ground arith, at) in
        postprocessed-IsSafeBut o (called d.current_xfer.done_callback reply)
          (starts d.current_xfer.done_callback start) (inc_current_xfer_counter d1) accepted
          (subst Running (sym (inc_current_xfer_counter-frame d1)) running))
      (λ off. let safe1 : IsSafeBut State.idle d1 = ground arith in safe1)

-- The wait is over.
waited-IsSafeBut :
    (o : Outside) (waiting : Waiting) (d : SymspiDev)
    → o.spi_async ≡ true
    → d.postprocessing ≡ waiting
    → IsSafeBut State.idle d
    → Returns (IsSafeBut State.idle) (waited o waiting d)
unfolding waited dropped_by number
waited-IsSafeBut o nowhere d taken e safe = safe
waited-IsSafeBut o to_give_up d taken e safe = ground arith
waited-IsSafeBut o (to_go_on start) d taken e safe =
    let d1 = dropped_by (not d.spi_master_mode) (record d { postprocessing = nowhere }) in
    let free : IsFree State.postprocessing d1 = ground arith in
    let active : is_waiting d1.state ≡ false = ground arith in
    let safe1 : IsSafeBut State.postprocessing d1 = ground arith in
    Returns-bind (λ (r : Result × SymspiDev). IsSafeBut State.idle r.1) (IsSafeBut State.idle)
      (to_idle_sequence o State.postprocessing start none d1) (λ r. some r.1)
      (to_idle-IsSafeBut o State.postprocessing start none d1 taken refl free active safe1)
      (λ r safe'. safe')

pub postprocessing_waits-IsSafeBut :
    (o : Outside) (d : SymspiDev)
    → o.spi_async ≡ true
    → IsSafeBut State.idle d
    → Returns (IsSafeBut State.idle) (postprocessing_waits o d)
unfolding postprocessing_waits
postprocessing_waits-IsSafeBut o d taken safe =
    if_both (Returns (IsSafeBut State.idle)) (d.their_flag_drop_counter == 0) safe
      (waited-IsSafeBut o d.postprocessing d taken refl safe)

-- The device in ERROR, while the recovery runs.
abbrev Recovering : SymspiDev → Type 0
Recovering d =
    IsSafeBut State.error d
    × (same_state d.state State.error ≡ true)
    × (is_nowhere d.postprocessing ≡ true)

abbrev Over : Result × SymspiDev → Type 0
Over r = IsSafeBut State.idle r.1

recovered-Over :
    (o : Outside) (d : SymspiDev) → o.spi_async ≡ true → Recovering d → Returns Over (recovered o d)
unfolding recovered number
recovered-Over o d taken h =
    let d1 = record d { their_flag_drop_counter = 1; last_error = none } in
    let free : IsFree State.error d1 = ground arith in
    let active : is_waiting d1.state ≡ false = ground arith in
    to_idle-IsSafeBut o State.error true none d1 taken refl free active h.0

replied-Over :
    (o : Outside) (reply : Reply) (d : SymspiDev)
    → o.spi_async ≡ true
    → AcceptsReply o reply d
    → Recovering d
    → Returns Over (replied o reply d)
unfolding replied
replied-Over o halt d taken accepted h = absurd accepted
replied-Over o keep d taken accepted h = recovered-Over o d taken h
replied-Over o (next xfer) d taken accepted h =
    simp (update-accepted o xfer State.error true d accepted) (
      recovered-Over o (replaced o xfer true d).1 taken
        (replaced-keeps Recovering o xfer true d (λ d1 id. h)))

-- The device when the recovery calls the consumer.
abbrev pub silenced : SymspiDev → SymspiDev
silenced d = record d { recover_work = false; wait_timeout_timer = false; our_flag = false }

pub recovery-Over :
    (o : Outside) (reply : Reply) (d : SymspiDev)
    → o.spi_async ≡ true
    → AcceptsReply o (called d.current_xfer.fail_callback reply) (silenced d)
    → is_nowhere d.postprocessing ≡ true
    → IsSafeBut State.idle d
    → Returns Over (recovery_sequence o reply (record d { recover_work = false }))
unfolding recovery_sequence stop_timeout_timer number
recovery-Over o reply d taken accepted free safe =
    if_split (Returns Over) (same_state d.state State.error)
      (λ at.
        let recovering : Recovering (silenced d) = (ground arith, at, free) in
        replied-Over o (called d.current_xfer.fail_callback reply) (silenced d) taken accepted
          recovering)
      (λ off.
        let safe1 : IsSafeBut State.idle (record d { recover_work = false }) = ground arith in
        safe1)
