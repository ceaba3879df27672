-- ===== src/Symspi/Machine/Pair.antt =====
-- A master and a slave whose flag lines are connected.
pub mod Cycle
pub mod Cycles
use iccom_utils.Base.{Bool, true, false, Option, none, some, List, [], ◌∷◌}
use iccom_utils.Symspi.{SymspiDev}
use iccom_utils.Symspi.Errors.{◌>>=◌}
use iccom_utils.Symspi.Xfer.{refused}
use iccom_utils.Symspi.Leave.{Outside}
use iccom_utils.Symspi.Machine.{Event, step}

pub data Side : Type 0 where
  master slave : Side

-- What a device sees of the other one. The SPI layer takes every message.
abbrev pub sees : SymspiDev → Outside
sees other = record { their_flag = other.our_flag; spi_async = true; tx = refused; rx = refused }

-- An event at one of the two devices, the master first.
abbrev pub step_at : Side → Event → SymspiDev × SymspiDev → Option (SymspiDev × SymspiDev)
step_at master e (m, s) = do m' ← step (sees s) e m; some (m', s)
step_at slave e (m, s) = do s' ← step (sees m) e s; some (m, s')

abbrev pub run_pair : List (Side × Event) → SymspiDev × SymspiDev → Option (SymspiDev × SymspiDev)
run_pair [] pair = some pair
run_pair ((side, e) ∷ events) pair = do pair' ← step_at side e pair; run_pair events pair'
