-- ===== src/Symspi/Safe/Request.antt =====
-- The requests of the consumer.
use iccom_utils.Base.{
  ◌≡◌, refl, ap, sym, subst, ℕ, arith, Bool, true, false, if◌then◌else◌, Option, none, some, inr,
}
use iccom_utils.Symspi.{State, SpiXfer, SymspiDev, Result, success, failure}
use iccom_utils.Symspi.Switch.{number, same_state}
use iccom_utils.Symspi.Errors.{is_success}
use iccom_utils.Symspi.Leave.{Outside}
use iccom_utils.Symspi.Exchange.{
  update_xfer_sequence, to_idle_sequence, switch_to_xfer_prepare_sequence, xchanged, data_xchange,
  default_updated, update_of, default_data_update,
}
use iccom_utils.Symspi.Safe.{is_waiting, IsSafeBut, Returns, Returns-bind}
use iccom_utils.Symspi.Safe.Exchange.{
  AfterUpdate, IsFree, Settled, prepare-IsSafeBut, switch_to_xfer_prepare-Returns, xchanged-Settled,
  repeat_xchange-Settled,
}
use iccom_utils.Symspi.Safe.Idle.{to_idle-IsSafeBut}
use iccom_utils.Symspi.Safe.Update.{
  Accepts, InState, replaced-keeps, update-AfterUpdate, update-accepted,
}

idle-IsFree : (d : SymspiDev) → IsFree State.idle d
unfolding number
idle-IsFree d = ground arith

prepare-InState :
    (d : SymspiDev)
    → IsSafeBut State.idle d
    → same_state d.state State.idle ≡ true
    → InState State.xfer_prepare (record d { state = State.xfer_prepare })
unfolding number
prepare-InState d safe at =
    (refl, ground arith, prepare-IsSafeBut State.idle d refl (idle-IsFree d) safe at)

pub data_xchange-Settled :
    (o : Outside) (xfer : Option SpiXfer) (force : Bool) (d : SymspiDev)
    → o.spi_async ≡ true
    → IsSafeBut State.idle d
    → Returns Settled (data_xchange o xfer force d)
unfolding data_xchange number
data_xchange-Settled o none force d taken safe =
    repeat_xchange-Settled o State.idle d taken refl (idle-IsFree d) safe
data_xchange-Settled o (some xfer) force d taken safe =
    let update = λ (d1 : SymspiDev). update_xfer_sequence o xfer State.xfer_prepare force d1 in
    simp safe.0.0 (
      Returns-bind (AfterUpdate State.xfer_prepare) Settled
        (switch_to_xfer_prepare_sequence (some xfer) update State.idle d)
        (λ r. xchanged o false r.0 r.1 r.2)
        (switch_to_xfer_prepare-Returns (AfterUpdate State.xfer_prepare) (λ e d1 safe1. safe1)
          update (some xfer) State.idle d refl (idle-IsFree d) safe (inr safe)
          (λ at.
            update-AfterUpdate o xfer State.xfer_prepare force
              (record d { state = State.xfer_prepare }) taken refl (prepare-InState d safe at)))
        (λ r safe'. xchanged-Settled o false r.0 r.1 r.2 taken safe'))

-- What an accepted update leaves: the device in the same state, or a safe one.
abbrev Ready : Result × Option ℕ × SymspiDev → Type 0
Ready r = if is_success r.0 then InState State.xfer_prepare r.2 else IsSafeBut State.idle r.2

-- The new default transfer of an idle device, if there is one, is accepted.
abbrev pub AcceptsDefault : Outside → Option SpiXfer → Bool → SymspiDev → Type 0
AcceptsDefault o none force d = Unit {0}
AcceptsDefault o (some xfer) force d =
    Accepts o xfer force (record d { state = State.xfer_prepare })

update_of-Ready :
    (o : Outside) (xfer : Option SpiXfer) (force : Bool) (d : SymspiDev)
    → IsSafeBut State.idle d
    → AcceptsDefault o xfer force d
    → same_state d.state State.idle ≡ true
    → Returns Ready (update_of o xfer force (record d { state = State.xfer_prepare }))
unfolding update_of
update_of-Ready o none force d safe accepted at = prepare-InState d safe at
update_of-Ready o (some xfer) force d safe accepted at =
    let d1 = record d { state = State.xfer_prepare } in
    subst (Returns Ready) (sym (update-accepted o xfer State.xfer_prepare force d1 accepted)) (
      replaced-keeps (InState State.xfer_prepare) o xfer force d1
        (λ d2 id. prepare-InState d safe at))

default_updated-Settled :
    (o : Outside) (res : Result) (id : Option ℕ) (d : SymspiDev)
    → o.spi_async ≡ true
    → Ready (res, id, d)
    → Returns Settled (default_updated o res id d)
unfolding default_updated number
default_updated-Settled o success id d taken (e, free, safe) =
    Returns-bind (λ (r : Result × SymspiDev). IsSafeBut State.idle r.1) Settled
      (to_idle_sequence o State.xfer_prepare false none d) (λ r. some (r.0, none, r.1))
      (to_idle-IsSafeBut o State.xfer_prepare false none d taken refl free (ap is_waiting e) safe)
      (λ r safe'. safe')
default_updated-Settled o (failure x) id d taken safe = safe

pub default_data_update-Settled :
    (o : Outside) (xfer : Option SpiXfer) (force : Bool) (d : SymspiDev)
    → o.spi_async ≡ true
    → AcceptsDefault o xfer force d
    → IsSafeBut State.idle d
    → Returns Settled (default_data_update o xfer force d)
unfolding default_data_update number
default_data_update-Settled o xfer force d taken accepted safe = simp safe.0.0 (
    Returns-bind Ready Settled
      (switch_to_xfer_prepare_sequence xfer (update_of o xfer force) State.idle d)
      (λ r. default_updated o r.0 r.1 r.2)
      (switch_to_xfer_prepare-Returns Ready (λ e d1 safe1. safe1) (update_of o xfer force) xfer
        State.idle d refl (idle-IsFree d) safe (inr safe)
        (λ at. update_of-Ready o xfer force d safe accepted at))
      (λ r ready. default_updated-Settled o r.0 r.1 r.2 taken ready))
