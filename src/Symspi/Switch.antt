-- ===== src/Symspi/Switch.antt =====
-- The switch from an expected state to another one, also while the device is being closed.
pub mod Open
use iccom_utils.Base.{
  ℕ, ◌≡◌, refl, ap, ◌∙◌, inl, inr, arith, List, [], ◌∷◌, Bool, true, false, not, ◌||◌, ◌==◌,
  if◌then◌else◌, Bool-cases,
}
use iccom_utils.Symspi.{State, SymspiDev}

-- The number of a state.
unfoldable pub number : State → ℕ
number State.cold = 0
number State.idle = 1
number State.xfer_prepare = 2
number State.waiting_prev = 3
number State.waiting_rdy = 4
number State.xfer = 5
number State.postprocessing = 6
number State.error = 7

abbrev pub same_state : State → State → Bool
same_state s t = number s == number t

-- `atomic_cmpxchg` on the state.
pub cmpxchg : SymspiDev → State → State → SymspiDev
cmpxchg d expected dst = if same_state d.state expected then record d { state = dst } else d

-- `symspi_switch_strict`
unfoldable pub switch_strict : SymspiDev → State → State → Bool × SymspiDev
unfolding cmpxchg
switch_strict d expected dst =
    if d.close_request
    then if not (same_state expected State.xfer) || same_state dst State.xfer
      then (false, d)
      else (false, record (cmpxchg d expected dst) { final_leave_xfer_completion = true })
    else (same_state d.state expected, cmpxchg d expected dst)

-- Switches that are tried one after the other.
pub switches : SymspiDev → List (State × State) → SymspiDev
switches d [] = d
switches d ((expected, dst) ∷ more) = switches (switch_strict d expected dst).1 more

-- A device that is being closed and outside of a transfer, or that left one.
abbrev IsOut : SymspiDev → Type 0
IsOut d = (d.close_request ≡ true) × (same_state d.state State.xfer ≡ false)

-- The one switch that a closing device makes starts from the transfer.
left_xfer :
    (expected dst : State)
    → not (same_state expected State.xfer) || same_state dst State.xfer ≡ false
    → number expected ≡ number State.xfer
unfolding number
left_xfer expected dst leaving = ground arith

switch_strict-IsOut :
    (d : SymspiDev) (expected dst : State)
    → IsOut d
    → let d' = (switch_strict d expected dst).1 in
      IsOut d' × (d'.state ≡ d.state) × ((switch_strict d expected dst).0 ≡ false)
unfolding switch_strict cmpxchg number
switch_strict-IsOut d expected dst (closing, out) =
    elim (Bool-cases (not (same_state expected State.xfer) || same_state dst State.xfer)) [
      | inl barred ↦ simp (closing, barred) ((refl, out), refl, refl)
      | inr leaving ↦
          let other = ap (λ n. number d.state == n) (left_xfer expected dst leaving) ∙ out in
          simp (closing, leaving, other) ((refl, out), refl, refl)
    ]

-- While the device is being closed and not in a transfer, no sequence of calls of
-- symspi_switch_strict changes its state.
pub switches_closing :
    (d : SymspiDev) (tries : List (State × State))
    → d.close_request ≡ true
    → same_state d.state State.xfer ≡ false
    → (switches d tries).state ≡ d.state
unfolding switches
switches_closing d [] closing out = refl
switches_closing d ((expected, dst) ∷ more) closing out =
    let ((closing', out'), same, _) = switch_strict-IsOut d expected dst (closing, out) in
    switches_closing (switch_strict d expected dst).1 more closing' out' ∙ same
