-- ===== src/Symspi/Safe/Update.antt =====
-- The update of the current transfer.
use iccom_utils.Base.{
  ◌≡◌, ◌∙◌, refl, ap, sym, subst, ℕ, arith, Bool, true, false, ◌||◌, if◌then◌else◌, some,
}
use iccom_utils.Symspi.{State, SpiXfer, SymspiDev, Result, success, failure}
use iccom_utils.Symspi.Switch.{number, same_state}
use iccom_utils.Symspi.Errors.{is_success}
use iccom_utils.Symspi.Leave.{Outside}
use iccom_utils.Symspi.Xfer.{get_next_xfer_id}
use iccom_utils.Symspi.Xfer.Frame.{with_xfer, replace_xfer-frame, get_next_xfer_id-frame}
use iccom_utils.Symspi.Exchange.{
  update_error, result_of, updated, replaced, update_xfer_sequence, to_idle_sequence,
}
use iccom_utils.Symspi.Safe.{is_waiting, IsSafeBut, Returns, Returns-bind}
use iccom_utils.Symspi.Safe.Exchange.{AfterUpdate, IsFree}
use iccom_utils.Symspi.Safe.Idle.{to_idle-IsSafeBut}

-- The update of a device in state `s` is accepted.
abbrev pub Accepts : Outside → SpiXfer → Bool → SymspiDev → Type 0
Accepts o xfer force d = (replaced o xfer force d).0 ≡ success

-- What a change of the current transfer keeps.
abbrev pub InState : State → SymspiDev → Type 0
InState s d = (d.state ≡ s) × IsFree s d × IsSafeBut s d

pub replaced-keeps :
    (P : SymspiDev → Type 0) (o : Outside) (xfer : SpiXfer) (force : Bool) (d : SymspiDev)
    → ((d1 : SymspiDev) (id : ℕ) → P (record (with_xfer d d1) { next_xfer_id = id }))
    → P (replaced o xfer force d).1
unfolding replaced
replaced-keeps P o xfer force d keep =
    let (id, d1) = get_next_xfer_id d in
    let d2 = (replaced o xfer force d).1 in
    subst P
      (sym (
        replace_xfer-frame d1 (record xfer { id = id; xfers_counter = 0 }) force o.tx o.rx
        ∙ ap (λ x. with_xfer x d2) (get_next_xfer_id-frame d)))
      (keep d2 d1.next_xfer_id)

pub settled-IsSafeBut : (s : State) (d : SymspiDev) → IsSafeBut State.idle d → IsSafeBut s d
unfolding number
settled-IsSafeBut s d safe = ground arith

either-IsSafeBut :
    (res : Result) (s : State) (d : SymspiDev)
    → IsSafeBut State.idle d
    → IsSafeBut (if is_success res then s else State.idle) d
either-IsSafeBut success s d safe = settled-IsSafeBut s d safe
either-IsSafeBut (failure e) s d safe = safe

updated-AfterUpdate :
    (o : Outside) (s : State) (id : ℕ) (res : Result) (d : SymspiDev)
    → o.spi_async ≡ true
    → same_state s State.error || same_state s State.xfer || is_waiting s ≡ false
    → InState s d
    → Returns (AfterUpdate s) (updated o s id res d)
unfolding updated number
updated-AfterUpdate o s id success d taken other (e, free, safe) = safe
updated-AfterUpdate o s id (failure x) d taken other (e, free, safe) =
    let calm : same_state s State.error ≡ false = ground arith in
    let steady : same_state s State.xfer ≡ false = ground arith in
    let active : is_waiting d.state ≡ false = ap is_waiting e ∙ ground arith in
    let res = result_of (update_error x) in
    simp calm (
      Returns-bind (λ (r : Result × SymspiDev). IsSafeBut State.idle r.1) (AfterUpdate s)
        (to_idle_sequence o s false (update_error x) d) (λ r. some (res, some id, r.1))
        (to_idle-IsSafeBut o s false (update_error x) d taken steady free active safe)
        (λ r safe'. either-IsSafeBut res s r.1 safe'))

pub update-AfterUpdate :
    (o : Outside) (xfer : SpiXfer) (s : State) (force : Bool) (d : SymspiDev)
    → o.spi_async ≡ true
    → same_state s State.error || same_state s State.xfer || is_waiting s ≡ false
    → InState s d
    → Returns (AfterUpdate s) (update_xfer_sequence o xfer s force d)
unfolding update_xfer_sequence
update-AfterUpdate o xfer s force d taken other good =
    let (res, d') = replaced o xfer force d in
    updated-AfterUpdate o s (get_next_xfer_id d).0 res d' taken other
      (replaced-keeps (InState s) o xfer force d (λ d1 id. good))

-- An accepted update leads to the device with the new transfer.
pub update-accepted :
    (o : Outside) (xfer : SpiXfer) (s : State) (force : Bool) (d : SymspiDev)
    → Accepts o xfer force d
    → update_xfer_sequence o xfer s force d
      ≡ some (success, some (get_next_xfer_id d).0, (replaced o xfer force d).1)
unfolding update_xfer_sequence updated
update-accepted o xfer s force d accepted = rw accepted refl
