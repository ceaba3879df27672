-- ===== src/Symspi/Errors.antt =====
-- The handling of errors, from every context: `__symspi_error_handle_` and
-- `symspi_try_to_error_sequence`.
pub mod Loop
use iccom_utils.Base.{
  ℕ, zero, suc, ◌+◌, ◌%◌, ◌^◌, List, [], ◌∷◌, Bool, true, false, ◌||◌, Option, none, some,
}
use iccom_utils.Base.{ltb, if◌then◌else◌}
use iccom_utils.Symspi.{State, SpiError, Result, success, failure, SymspiInfo, SymspiDev}
use iccom_utils.Symspi.Switch.{switch_strict}

-- A handler that never returns has no result.
infixl 5 ◌>>=◌
abbrev pub ◌>>=◌ {ℓ κ} : {A : Type ℓ} {B : Type κ} → Option A → (A → Option B) → Option B
none >>= f = none
some a >>= f = f a

abbrev pub is_success : Result → Bool
is_success success = true
is_success (failure e) = false

-- Switches joined by `||`.
pub try_switches : SymspiDev → List (State × State) → Bool × SymspiDev
try_switches d [] = (false, d)
try_switches d ((expected, dst) ∷ more) =
    let (switched, d') = switch_strict d expected dst in
    let rest = try_switches d' more in if switched then (true, d') else rest

-- The states that go to ERROR directly.
abbrev pub to_error : List (State × State)
to_error =
    (State.idle, State.error)
    ∷ (State.xfer_prepare, State.error)
    ∷ (State.waiting_prev, State.error)
    ∷ (State.waiting_rdy, State.error)
    ∷ (State.postprocessing, State.error)
    ∷ []

-- What follows the switch XFER to XFER: a second try, since the transfer may have ended meanwhile.
pub postponed : SpiError → SymspiDev → SymspiDev
postponed err d =
    let (late, d') =
      switch_strict (record d { last_error = some err }) State.postprocessing State.error in
    if late then record d' { recover_work = true } else d'

-- One round of the loop, and whether it returns.
pub error_round : SpiError → SymspiDev → Bool × SymspiDev
unfolding postponed
error_round err d =
    let (switched, d1) = try_switches d to_error in
    let (again, d2) = switch_strict d1 State.error State.error in
    let (running, d3) = switch_strict d2 State.xfer State.xfer in
    if switched
    then (true, record d1 { last_error = some err; recover_work = true })
    else if again
    then (true, d2)
    else if running
    then (true, postponed err d3)
    else switch_strict d3 State.cold State.cold

-- `while (true)`; none: it has not returned after so many rounds.
pub error_loop : ℕ → SpiError → SymspiDev → Option SymspiDev
error_loop zero err d = none
error_loop (suc fuel) err d =
    let (returned, d') = error_round err d in
    let rest = error_loop fuel err d' in if returned then some d' else rest

-- The overview info.
unfoldable pub counted : SpiError → SymspiDev → SymspiDev
counted SpiError.other_side d = record d {
  info = record (d.info) {
    other_side_indicated_errors = (d.info.other_side_indicated_errors + 1) % 2 ^ 64;
  };
}
counted SpiError.wait_other_side d = record d {
  info = record (d.info) {
    other_side_no_reaction_errors = (d.info.other_side_no_reaction_errors + 1) % 2 ^ 64;
  };
}
counted e d = d

-- The report, which is printed, is left out. One round is enough unless no number of rounds is.
unfoldable pub error_handle : SpiError → SymspiDev → Option SymspiDev
unfolding error_loop
error_handle err d = error_loop 1 err (counted err d)

-- Whether there is an internal error or one of the other side.
pub found_error : Option SpiError → SymspiDev → Option SpiError
found_error none d = if ltb 1 d.their_flag_drop_counter then some SpiError.other_side else none
found_error (some e) d = some e

unfoldable pub after_found : Option SpiError → SymspiDev → Option (Result × SymspiDev)
after_found none d = some (success, d)
after_found (some e) d = do d' ← error_handle e d; some (failure e, d')

-- `symspi_try_to_error_sequence`
unfoldable pub try_to_error_sequence : Option SpiError → SymspiDev → Option (Result × SymspiDev)
unfolding found_error after_found
try_to_error_sequence internal_error d = after_found (found_error internal_error d) d
