-- ===== src/Symspi/Tests.antt =====
-- Transfers of two bytes, and the theorems of the SPI transport at them.
use iccom_utils.Base.{◌-◌, ◌^◌, ◌≡◌, ◌⊎◌, ◌↔◌, refl, arith, [], ◌∷◌, true, false, none, some}
use iccom_utils.Symspi.{nowhere, State, SpiError, success, failure, null, live, SpiXfer, SymspiDev}
use iccom_utils.Symspi.Xfer.{refused, at, regions_overlap, xfer_init_copy, replace_xfer}
use iccom_utils.Symspi.Xfer.Overlap.{Shares, regions_overlap_iff}
use iccom_utils.Symspi.Xfer.Copy.{Copied, xfer_init_copy_lem}
use iccom_utils.Symspi.Xfer.Replace.{IsXfer, Replaced, replace_xfer_lem}

abbrev current : SpiXfer
current = record {
  size_bytes = 2;
  data_tx = live 100 (1 ∷ 2 ∷ []);
  data_rx_buf = live 200 (0 ∷ 0 ∷ []);
  xfers_counter = 0;
  id = 1;
  consumer_data = none;
  done_callback = some 7;
  fail_callback = some 8;
}

-- The consumer's transfer.
abbrev next : SpiXfer
next = record current { data_tx = live 300 (3 ∷ 4 ∷ []); id = 2 }

abbrev device : SymspiDev
device = record {
  next_xfer_id = 2 ^ 31 - 1;
  current_xfer = current;
  spi_xfer = record { tx_buf = null; rx_buf = null; len = 0 };
  spi_msg = false;
  recover_work = false;
  postprocessing_work = false;
  postprocessing = nowhere;
  state = State.waiting_prev;
  their_flag_drop_counter = 1;
  spi_master_mode = false;
  hardware_spi_rdy = false;
  delayed_xfer_request = 0;
  close_request = true;
  slave_tx_fill_timeout_timer = false;
  final_leave_xfer_completion = false;
  last_error = none;
  wait_timeout_timer = true;
  info = record {
    other_side_indicated_errors = 0;
    other_side_no_reaction_errors = 0;
    xfers_done_ok = 0;
    their_flag_edges = 0;
  };
  our_flag = false;
  spi = true;
  gpios = true;
}

current-IsXfer : IsXfer current
current-IsXfer = (100, 1 ∷ 2 ∷ [], 200, 0 ∷ 0 ∷ [], refl, refl, refl, refl, omega arith)

regions_overlap_iff_example : (regions_overlap 100 4 103 4 ≡ true) ↔ Shares 100 4 103 4
regions_overlap_iff_example = regions_overlap_iff 100 4 103 4 (omega arith) (omega arith)

xfer_init_copy_lem_example :
    let (result, target) = xfer_init_copy next (at 400 (0 ∷ 0 ∷ [])) (at 500 (0 ∷ 0 ∷ [])) in
    ((result ≡ success) × Copied next (3 ∷ 4 ∷ []) target)
    ⊎ ((result ≡ failure SpiError.no_memory) × (target.size_bytes ≡ 0))
xfer_init_copy_lem_example =
    xfer_init_copy_lem next (at 400 (0 ∷ 0 ∷ [])) (at 500 (0 ∷ 0 ∷ [])) 300 (3 ∷ 4 ∷ []) refl refl
      (omega arith)

replace_xfer_lem_example :
    let (result, d') = replace_xfer device next false refused refused in
    ((result ≡ success) × Replaced next (3 ∷ 4 ∷ []) d')
    ⊎ ((e : SpiError) × (result ≡ failure e) × (d' ≡ device))
    ⊎ ((result ≡ failure SpiError.no_memory) × (d'.current_xfer.size_bytes ≡ 0))
replace_xfer_lem_example =
    replace_xfer_lem device next false refused refused 300 (3 ∷ 4 ∷ []) current-IsXfer refl refl

apart : ¬ Shares 100 2 300 2
apart (a, h, h', k, k') = omega arith
