-- ===== src/Symspi/Machine/Pair/Cycle.antt =====
-- A whole transfer between a master and a slave.
use iccom_utils.Base.{
  ℕ, ◌+◌, ◌%◌, ◌^◌, ◌≡◌, refl, Bool, true, false, none, some, List, [], ◌∷◌, ◌++◌,
}
use iccom_utils.Symspi.{State, SpiXfer, SpiTransfer, SymspiInfo, nowhere, SymspiDev}
use iccom_utils.Symspi.Xfer.{inc_current_xfer_counter}
use iccom_utils.Symspi.Switch.{number, switch_strict}
use iccom_utils.Symspi.Errors.{try_to_error_sequence}
use iccom_utils.Symspi.Leave.{xfer_prepare_to_waiting_prev_sequence}
use iccom_utils.Symspi.Exchange.{
  data_xchange, to_idle_sequence, started_or_idle, checked_idle, verify_consumer_input,
}
use iccom_utils.Symspi.Works.{
  keep, postprocessing_sequence, postprocessing_waits, spi_xfer_tx_done_callback,
  spi_xfer_done_callback, their_flag_isr,
}
use iccom_utils.Symspi.Safe.{Returns}
use iccom_utils.Symspi.Machine.{Event, xchange, flag_edge, tx_done, done, postprocess, look, step}
use iccom_utils.Symspi.Machine.Pair.{Side, master, slave, run_pair}

-- An idle device whose line is dropped, after the other side has dropped its line.
abbrev pub at_rest : Bool → ℕ → SpiXfer → SpiTransfer → SymspiInfo → Bool → SymspiDev
at_rest is_master id xfer native info completed = record {
  next_xfer_id = id;
  current_xfer = xfer;
  spi_xfer = native;
  spi_msg = false;
  recover_work = false;
  postprocessing_work = false;
  postprocessing = nowhere;
  state = State.idle;
  their_flag_drop_counter = 1;
  spi_master_mode = is_master;
  hardware_spi_rdy = false;
  delayed_xfer_request = 0;
  close_request = false;
  slave_tx_fill_timeout_timer = false;
  final_leave_xfer_completion = completed;
  last_error = none;
  wait_timeout_timer = false;
  info = info;
  our_flag = false;
  spi = true;
  gpios = true;
}

-- The side that asks first, and how the other one joins.
abbrev pub start : Side → List (Side × Event)
start master =
    (master, xchange none false) ∷ (slave, flag_edge) ∷ (slave, tx_done) ∷ (master, flag_edge) ∷ []
start slave =
    (slave, xchange none false) ∷ (slave, tx_done) ∷ (master, flag_edge) ∷ (slave, flag_edge) ∷ []

-- The end of the transfer on both sides.
abbrev pub finish : List (Side × Event)
finish =
    (master, done true)
    ∷ (slave, done true)
    ∷ (master, postprocess keep false)
    ∷ (slave, flag_edge)
    ∷ (slave, postprocess keep false)
    ∷ (slave, look)
    ∷ (master, flag_edge)
    ∷ (master, look)
    ∷ []

-- Both devices are in the transfer, and the SPI layers have their messages.
abbrev pub InXfer : SymspiDev → Type 0
InXfer d = (d.state ≡ State.xfer) × (d.spi_msg ≡ true)

-- The overview info after two edges and a transfer.
abbrev pub counted_up : SymspiInfo → SymspiInfo
counted_up i = record i {
  xfers_done_ok = (i.xfers_done_ok + 1) % 2 ^ 64;
  their_flag_edges = ((i.their_flag_edges + 1) % 2 ^ 64 + 1) % 2 ^ 64;
}

module _ (n k c e : ℕ) (a b : SpiXfer) (x y : SpiTransfer) (i j : SymspiInfo) (u v : Bool) where
  abbrev pub pair : SymspiDev × SymspiDev
  pair = (
    at_rest true n (record a { done_callback = some c }) x i u,
    at_rest false k (record b { done_callback = some e }) y j v,
  )

  pub start-lem :
      (side : Side)
      → Returns
          (λ p. InXfer p.0 × InXfer p.1 × (p.0.spi_xfer ≡ x) × (p.1.spi_xfer ≡ y))
          (run_pair (start side) pair)
  unfolding step data_xchange verify_consumer_input their_flag_isr
      xfer_prepare_to_waiting_prev_sequence try_to_error_sequence switch_strict
      spi_xfer_tx_done_callback number
  start-lem master = ((refl, refl), (refl, refl), refl, refl)
  start-lem slave = ((refl, refl), (refl, refl), refl, refl)

  -- The pair after the transfer.
  abbrev pub pair' : SymspiDev × SymspiDev
  pair' = (
    at_rest true n (inc_current_xfer_counter pair.0).current_xfer x (counted_up i) u,
    at_rest false k (inc_current_xfer_counter pair.1).current_xfer y (counted_up j) v,
  )

  pub run_pair-cycle : (side : Side) → run_pair (start side ++ finish) pair ≡ some pair'
  unfolding step data_xchange verify_consumer_input their_flag_isr
      xfer_prepare_to_waiting_prev_sequence try_to_error_sequence switch_strict
      spi_xfer_tx_done_callback spi_xfer_done_callback postprocessing_sequence postprocessing_waits
      to_idle_sequence started_or_idle checked_idle inc_current_xfer_counter number
  run_pair-cycle master = refl
  run_pair-cycle slave = refl
