-- ===== src/Symspi.antt =====
-- driver/symspi.c, the SPI transport below the core: the device and its states.
pub mod Xfer
pub mod Switch
pub mod Errors
pub mod Leave
pub mod Exchange
pub mod Works
pub mod Safe
pub mod Machine
mod Tests
use iccom_utils.Base.{ℕ, Bool, List, Option}

-- `SYMSPI_STATE_…`
pub data State : Type 0 where
  cold idle xfer_prepare waiting_prev waiting_rdy xfer postprocessing error : State

-- The errors, `SYMSPI_ERROR_…`, and `FULL_DUPLEX_ERROR_NOT_READY`.
pub data SpiError : Type 0 where
  logical xfer_size_mismatch xfer_size_zero no_memory overlap other_side spi no_spi no_gpio no_xfer
        wait_other_side not_ready :
      SpiError

-- `SYMSPI_SUCCESS`, or a negated error.
pub data Result : Type 0 where
  success : Result
  failure : SpiError → Result

-- A pointer: NULL, to memory with a content, or to memory that was freed.
pub data Pointer : Type 0 where
  null : Pointer
  live : ℕ → List ℕ → Pointer
  dangling : ℕ → Pointer

-- The fields of `struct full_duplex_xfer`. The callbacks and the consumer's data are pointers that
-- are only handed on; `int`s are 32-bit patterns.
pub record SpiXfer : Type 0 where
  pub size_bytes : ℕ
  pub data_tx : Pointer
  pub data_rx_buf : Pointer
  pub xfers_counter : ℕ
  pub id : ℕ
  pub consumer_data : Option ℕ
  pub done_callback : Option ℕ
  pub fail_callback : Option ℕ

-- The fields of `struct spi_transfer` that the driver sets.
pub record SpiTransfer : Type 0 where
  pub tx_buf : Pointer
  pub rx_buf : Pointer
  pub len : ℕ

-- `struct symspi_info`
pub record SymspiInfo : Type 0 where
  pub other_side_indicated_errors : ℕ
  pub other_side_no_reaction_errors : ℕ
  pub xfers_done_ok : ℕ
  pub their_flag_edges : ℕ

-- Where the postprocessing work waits for the other side's flag to drop: not at all, before the
-- device goes on, possibly at once, or before the work gives up.
pub data Waiting : Type 0 where
  nowhere : Waiting
  to_go_on : Bool → Waiting
  to_give_up : Waiting

-- `struct symspi_dev_private`, with the flag line and the SPI layer: `our_flag` is the level of our
-- line, `wait_timeout_timer` and `slave_tx_fill_timeout_timer` say that the timer is pending,
-- `recover_work` and `postprocessing_work` that the work is queued, `spi_msg` that `spi_async` has
-- the message, `spi` and `gpios` that the consumer gave an SPI device and two GPIOs.
-- `final_leave_xfer_completion` is completed.
pub record SymspiDev : Type 0 where
  pub next_xfer_id : ℕ
  pub current_xfer : SpiXfer
  pub spi_xfer : SpiTransfer
  pub spi_msg : Bool
  pub recover_work : Bool
  pub postprocessing_work : Bool
  pub postprocessing : Waiting
  pub state : State
  pub their_flag_drop_counter : ℕ
  pub spi_master_mode : Bool
  pub hardware_spi_rdy : Bool
  pub delayed_xfer_request : ℕ
  pub close_request : Bool
  pub slave_tx_fill_timeout_timer : Bool
  pub final_leave_xfer_completion : Bool
  pub last_error : Option SpiError
  pub wait_timeout_timer : Bool
  pub info : SymspiInfo
  pub our_flag : Bool
  pub spi : Bool
  pub gpios : Bool
