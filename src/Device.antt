-- ===== src/Device.antt =====
-- driver/iccom.c, the device: `struct iccom_dev_private` and its parts. The state stands in
-- groups: the queue of packages to send (`Tx`), the statistics and the error records.
pub mod Errors
pub mod Queue
pub mod Receive
pub mod Callbacks
pub mod Api
pub mod Link
use iccom_utils.Base.{ℕ, List, Bool, ◌+◌, ◌%◌, ◌^◌}
use iccom_utils.Kernel.{Memory}
use iccom_utils.Package.{Package}
use iccom_utils.Storage.{Storage}

-- The list of packages to send, oldest first, with the next package ID, an `int` as a bit
-- pattern, and the counter `statistics.packages_in_tx_queue`.
pub record Tx : Type 0 where
  pub packages : List Package
  pub next_tx_package_id : ℕ
  pub packages_in_tx_queue : ℕ

-- `struct iccom_dev_statistics`, less the counter in `Tx`.
pub record Statistics : Type 0 where
  pub transport_layer_xfers_done_count : ℕ
  pub raw_bytes_xfered_via_transport_layer : ℕ
  pub packages_xfered : ℕ
  pub packages_sent_ok : ℕ
  pub packages_received_ok : ℕ
  pub packages_bad_data_received : ℕ
  pub packages_duplicated_received : ℕ
  pub packages_parsing_failed : ℕ
  pub packets_received_ok : ℕ
  pub messages_received_ok : ℕ
  pub total_consumers_bytes_received_ok : ℕ
  pub messages_ready_in_storage : ℕ

-- `struct iccom_error_rec`, less the constant message.
pub record ErrorRec : Type 0 where
  pub err_num : ℕ
  pub total_count : ℕ
  pub unreported_count : ℕ
  pub last_report_time_msec : ℕ
  pub last_occurrence_time_msec : ℕ
  pub exp_avg_interval_msec : ℕ
  pub last_reported : Bool
  pub err_per_sec_threshold : ℕ

-- The fields of `struct full_duplex_xfer` that vary: the size, and what `data_tx` points to.
pub record Xfer : Type 0 where
  pub size_bytes : ℕ
  pub data_tx : List ℕ

-- `delivery_scheduled` tells that `consumer_delivery_work` waits in the work queue.
pub record Private : Type 0 where
  pub tx : Tx
  pub ack_val : ℕ
  pub nack_val : ℕ
  pub xfer : Xfer
  pub data_xfer_stage : Bool
  pub last_rx_package_id : ℕ
  pub rx_messages : Storage
  pub delivery_scheduled : Bool
  pub closing : Bool
  pub statistics : Statistics
  pub errors : List ErrorRec
  pub memory : Memory

-- Additions of an `unsigned long long` or `unsigned long`, and of an `unsigned int`.
abbrev pub add_u64 : ℕ → ℕ → ℕ
add_u64 a b = (a + b) % 2 ^ 64

abbrev pub add_u32 : ℕ → ℕ → ℕ
add_u32 a b = (a + b) % 2 ^ 32

abbrev pub package_ack_value : ℕ
package_ack_value = 0xD0

abbrev pub package_nack_value : ℕ
package_nack_value = 0xE1

abbrev pub initial_package_id : ℕ
initial_package_id = 1
