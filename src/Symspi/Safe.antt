-- ===== src/Symspi/Safe.antt =====
-- What holds of an open device between the steps of its contexts.
pub mod Leave
pub mod Idle
pub mod Update
pub mod Request
pub mod Exchange
pub mod Works
pub mod Interrupts
use iccom_utils.Base.{◌≡◌, Bool, true, false, not, ◌&&◌, ◌||◌, Option, none, some}
use iccom_utils.Symspi.{
  Result, success, failure, State, Waiting, nowhere, to_go_on, to_give_up, SymspiDev,
}
use iccom_utils.Symspi.Errors.{◌>>=◌}
use iccom_utils.Symspi.Switch.{same_state}

abbrev pub is_waiting : State → Bool
is_waiting s = same_state s State.waiting_prev || same_state s State.waiting_rdy

abbrev pub is_nowhere : Waiting → Bool
is_nowhere nowhere = true
is_nowhere (to_go_on start) = false
is_nowhere to_give_up = false

abbrev pub goes_on : Waiting → Bool
goes_on nowhere = false
goes_on (to_go_on start) = true
goes_on to_give_up = false

-- Something is pending that will wake the device up, or it is idle.
abbrev pub is_alive : SymspiDev → Bool
is_alive d =
    same_state d.state State.idle
    || is_waiting d.state && d.wait_timeout_timer
    || same_state d.state State.xfer && d.spi_msg
    || same_state d.state State.postprocessing
      && (d.postprocessing_work || goes_on d.postprocessing)
    || same_state d.state State.error && d.recover_work

-- The device is open and complete, the SPI layer works only in XFER, and the postprocessing waits
-- only in POSTPROCESSING and ERROR.
abbrev pub IsOpen : SymspiDev → Type 0
IsOpen d =
    (d.close_request ≡ false)
    × (d.spi ≡ true)
    × (d.gpios ≡ true)
    × (not d.spi_msg || same_state d.state State.xfer ≡ true)
    × (is_nowhere d.postprocessing
          || same_state d.state State.postprocessing
          || same_state d.state State.error
        ≡ true)

-- An open device that is alive, or in the given state.
abbrev pub IsSafeBut : State → SymspiDev → Type 0
IsSafeBut s d = IsOpen d × (same_state d.state s || is_alive d ≡ true)

-- What the check for errors leaves: the same device, or one that is safe.
abbrev pub Checked : SymspiDev → Result → SymspiDev → Type 0
Checked d success d' = d' ≡ d
Checked d (failure e) d' = IsSafeBut State.idle d'

-- A handler returns, with a result of which `P` holds.
abbrev pub Returns {ℓ} : {A : Type ℓ} → (A → Type 0) → Option A → Type 0
Returns P none = ⊥
Returns P (some a) = P a

pub Returns-bind {ℓ κ} :
    {A : Type ℓ} {B : Type κ} (P : A → Type 0) (Q : B → Type 0) (m : Option A) (f : A → Option B)
    → Returns P m
    → ((a : A) → P a → Returns Q (f a))
    → Returns Q (m >>= f)
Returns-bind P Q none f h k = absurd h
Returns-bind P Q (some a) f h k = k a h

pub Returns-map {ℓ} :
    {A : Type ℓ} (P Q : A → Type 0) (m : Option A)
    → Returns P m
    → ((a : A) → P a → Q a)
    → Returns Q m
Returns-map P Q none h k = absurd h
Returns-map P Q (some a) h k = k a h

-- What holds of the result, if there is one.
abbrev pub After {ℓ} : {A : Type ℓ} → (A → Type 0) → Option A → Type 0
After P none = Unit {0}
After P (some a) = P a

pub Returns-bind-After {ℓ κ} :
    {A : Type ℓ} {B : Type κ} (P Q : A → Type 0) (R : B → Type 0) (m : Option A) (f : A → Option B)
    → Returns P m
    → After Q m
    → ((a : A) → P a → Q a → Returns R (f a))
    → Returns R (m >>= f)
Returns-bind-After P Q R none f h q k = absurd h
Returns-bind-After P Q R (some a) f h q k = k a h q
