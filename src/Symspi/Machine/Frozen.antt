-- ===== src/Symspi/Machine/Frozen.antt =====
-- A device in XFER, between the start and the end of the transfer.
pub mod Requests
pub mod Run
use iccom_utils.Base.{
  if_both, if_split, ◌≡◌, refl, ap, ◌∙◌, subst, sym, ◌+◌, arith, Bool, true, false, not, ◌&&◌, ◌||◌,
  ◌==◌, leb, Option, none, some, List, [], ◌∷◌, if◌then◌else◌,
}
use iccom_utils.Symspi.{
  State, SpiError, SpiXfer, SpiTransfer, Waiting, nowhere, to_go_on, to_give_up, SymspiDev, Result,
  success, failure,
}
use iccom_utils.Symspi.Switch.{number, same_state, switch_strict}
use iccom_utils.Symspi.Switch.Open.{missed}
use iccom_utils.Symspi.Errors.{
  ◌>>=◌, error_handle, counted, error_loop, found_error, after_found, try_to_error_sequence,
}
use iccom_utils.Symspi.Errors.Loop.{handled, error_loop-open}
use iccom_utils.Symspi.Leave.{
  Outside, try_leave_waiting_prev_sequence, try_leave_waiting_rdy_sequence,
}
use iccom_utils.Symspi.Safe.{Returns, Returns-bind}

-- The device is open and in XFER, with the transfer, the buffers of the SPI layer and its work as
-- they are in `d`.
abbrev pub Frozen : SymspiDev → SymspiDev → Type 0
Frozen d d' =
    (d'.close_request ≡ false)
    × (d'.state ≡ State.xfer)
    × (d'.current_xfer ≡ d.current_xfer)
    × (d'.spi_xfer ≡ d.spi_xfer)
    × (d'.spi_msg ≡ d.spi_msg)

module _ (d0 : SymspiDev) where
  counted-Frozen : (e : SpiError) (d : SymspiDev) → Frozen d0 d → Frozen d0 (counted e d)
  unfolding counted
  counted-Frozen SpiError.other_side d h = h
  counted-Frozen _ d h = h

  handled-Frozen : (e : SpiError) (d : SymspiDev) → Frozen d0 d → Frozen d0 (handled e d)
  unfolding number
  handled-Frozen e d h =
      if_both (Frozen d0) (same_state d.state State.error || same_state d.state State.cold) h (
        if_split (Frozen d0) (same_state d.state State.xfer) (λ at. h)
          (λ off. let e = ap (λ s. same_state s State.xfer) h.1 in cc))

  pub error_handle-Frozen :
      (e : SpiError) (d : SymspiDev) → Frozen d0 d → Returns (Frozen d0) (error_handle e d)
  unfolding error_handle
  error_handle-Frozen e d h =
      let h' = counted-Frozen e d h in
      subst (Returns (Frozen d0)) (sym (error_loop-open e (counted e d) 0 h'.0))
        (handled-Frozen e (counted e d) h')

  after_found-Frozen :
      (e : Option SpiError) (d : SymspiDev)
      → Frozen d0 d
      → Returns (λ r. Frozen d0 r.1) (after_found e d)
  unfolding after_found
  after_found-Frozen none d h = h
  after_found-Frozen (some e) d h =
      Returns-bind (Frozen d0) (λ (r : Result × SymspiDev). Frozen d0 r.1) (error_handle e d)
        (λ d'. some (failure e, d')) (error_handle-Frozen e d h) (λ d' h'. h')

  pub try_to_error-Frozen :
      (e : Option SpiError) (d : SymspiDev)
      → Frozen d0 d
      → Returns (λ r. Frozen d0 r.1) (try_to_error_sequence e d)
  unfolding try_to_error_sequence
  try_to_error-Frozen e d h = after_found-Frozen (found_error e d) d h

  pub rdy-Frozen :
      (o : Outside) (d : SymspiDev) → Frozen d0 d → Frozen d0 (try_leave_waiting_rdy_sequence o d).1
  unfolding try_leave_waiting_rdy_sequence number
  rdy-Frozen o d h = simp (missed d State.xfer h.1 h.0 State.waiting_rdy State.xfer refl) h

  pub prev-Frozen :
      (o : Outside) (d : SymspiDev)
      → Frozen d0 d
      → Frozen d0 (try_leave_waiting_prev_sequence o d).1
  unfolding try_leave_waiting_prev_sequence number
  prev-Frozen o d h =
      let P = λ (r : Result × SymspiDev). Frozen d0 r.1 in
      simp
        (
          missed d State.xfer h.1 h.0 State.waiting_prev State.xfer refl,
          missed d State.xfer h.1 h.0 State.waiting_prev State.waiting_rdy refl,
        )
        (if_both P (not d.spi_master_mode) h (if_both P d.hardware_spi_rdy h h))
