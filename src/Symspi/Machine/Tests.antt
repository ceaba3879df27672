-- ===== src/Symspi/Machine/Tests.antt =====
-- Runs of an idle slave and of one in a transfer.
use iccom_utils.Base.{if◌then◌else◌, ◌≡◌, refl, List, [], ◌∷◌, true, false, none, some}
use iccom_utils.Symspi.{State, SpiError, failure, live, nowhere, SymspiDev}
use iccom_utils.Symspi.Xfer.{refused}
use iccom_utils.Symspi.Switch.{number, switch_strict}
use iccom_utils.Symspi.Errors.{error_loop, try_to_error_sequence}
use iccom_utils.Symspi.Errors.Loop.{handled, error_loop_lem}
use iccom_utils.Symspi.Leave.{
  Outside, xfer_prepare_to_waiting_prev_sequence, try_leave_waiting_prev_sequence,
}
use iccom_utils.Symspi.Works.{their_flag_isr, spi_xfer_done_callback, spi_xfer_tx_done_callback}
use iccom_utils.Symspi.Safe.{Returns}
use iccom_utils.Symspi.Machine.{Event, flag_edge, tx_done, done, wait_timeout, step, run}
use iccom_utils.Symspi.Machine.Pair.{master, slave, run_pair}
use iccom_utils.Symspi.Machine.Pair.Cycle.{pair}
use iccom_utils.Symspi.Machine.Pair.Cycles.{RestAfter, transfers, cycles-RestAfter}
use iccom_utils.Symspi.Machine.Alive.{IsAlive, run-IsAlive}
use iccom_utils.Symspi.Machine.Frozen.{Frozen}
use iccom_utils.Symspi.Machine.Frozen.Run.{run-Frozen, run-stuck}

abbrev idle : SymspiDev
idle = record {
  next_xfer_id = 2;
  current_xfer = record {
    size_bytes = 2;
    data_tx = live 100 (1 ∷ 2 ∷ []);
    data_rx_buf = live 200 (0 ∷ 0 ∷ []);
    xfers_counter = 0;
    id = 1;
    consumer_data = none;
    done_callback = some 7;
    fail_callback = some 8;
  };
  spi_xfer = record { tx_buf = live 100 (1 ∷ 2 ∷ []); rx_buf = live 200 (0 ∷ 0 ∷ []); len = 2 };
  spi_msg = false;
  recover_work = false;
  postprocessing_work = false;
  postprocessing = nowhere;
  state = State.idle;
  their_flag_drop_counter = 1;
  spi_master_mode = false;
  hardware_spi_rdy = false;
  delayed_xfer_request = 0;
  close_request = false;
  slave_tx_fill_timeout_timer = false;
  final_leave_xfer_completion = false;
  last_error = none;
  wait_timeout_timer = false;
  info = record {
    other_side_indicated_errors = 0;
    other_side_no_reaction_errors = 0;
    xfers_done_ok = 0;
    their_flag_edges = 0;
  };
  our_flag = false;
  spi = true;
  gpios = true;
}

abbrev busy : SymspiDev
busy = record idle { state = State.xfer; spi_msg = true }

abbrev raised : Outside
raised = record { their_flag = true; spi_async = true; tx = refused; rx = refused }

abbrev dropped : Outside
dropped = record raised { their_flag = false }

-- The other side asks for a transfer, which runs to its end.
abbrev events : List (Outside × Event)
events = (raised, flag_edge) ∷ (raised, tx_done) ∷ (raised, done true) ∷ (dropped, flag_edge) ∷ []

run-IsAlive_example : Returns IsAlive (run events idle)
unfolding step their_flag_isr xfer_prepare_to_waiting_prev_sequence try_to_error_sequence
    switch_strict spi_xfer_done_callback spi_xfer_tx_done_callback number
run-IsAlive_example =
    run-IsAlive events idle (refl, (refl, (refl, (refl, tt))))
      ((refl, refl, refl, refl, refl), refl)

run-Frozen_example :
    Returns (Frozen busy) (run ((dropped, flag_edge) ∷ (dropped, wait_timeout) ∷ []) busy)
run-Frozen_example =
    run-Frozen ((dropped, flag_edge) ∷ (dropped, wait_timeout) ∷ []) busy refl refl refl

abbrev waiting : SymspiDev
waiting = record idle { state = State.waiting_prev; wait_timeout_timer = true }

abbrev unwilling : Outside
unwilling = record raised { spi_async = false }

run-stuck_example :
    let (result, d') = try_leave_waiting_prev_sequence unwilling waiting in
    (result ≡ failure SpiError.spi) × Returns (Frozen d') (run events d') × (d'.spi_msg ≡ false)
run-stuck_example = run-stuck unwilling waiting events refl refl refl refl refl

error_loop_lem_example :
    error_loop 1 SpiError.spi waiting
    ≡ (if waiting.close_request then none else some (handled SpiError.spi waiting))
error_loop_lem_example = error_loop_lem SpiError.spi waiting 0

cycles-RestAfter_example :
    Returns
      (RestAfter 2 1 7 7 idle.spi_xfer idle.spi_xfer false false 2 idle.current_xfer
        idle.current_xfer idle.info idle.info)
      (run_pair (transfers (master ∷ slave ∷ [])) (
        pair 2 1 7 7 idle.current_xfer idle.current_xfer idle.spi_xfer idle.spi_xfer idle.info
          idle.info false false))
cycles-RestAfter_example =
    cycles-RestAfter 2 1 7 7 idle.spi_xfer idle.spi_xfer false false (master ∷ slave ∷ [])
      idle.current_xfer idle.current_xfer idle.info idle.info
