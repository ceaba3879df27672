-- ===== src/Device/Errors.antt =====
-- driver/iccom.c, `__iccom_error_report` and its helpers: the history of an error, and the limit
-- on how often it is reported. The time comes as an argument; printing is left out.
pub mod Bounds
use Prim.Native.Nat.{min, max}
use iccom_utils.Base.{ℕ, ◌+◌, ◌-◌, ◌*◌, ◌/◌, ◌%◌, ◌^◌, List, [], ◌∷◌}
use iccom_utils.Base.{Bool, true, false, ◌&&◌, not, ◌==◌, ltb, leb, if◌then◌else◌}
use iccom_utils.Device.{ErrorRec, add_u32}

abbrev pub min_err_report_interval_msec : ℕ
min_err_report_interval_msec = 10000

abbrev pub err_rate_decay_rate_msec_per_half : ℕ
err_rate_decay_rate_msec_per_half = 2000

abbrev pub err_rate_decay_rate_min : ℕ
err_rate_decay_rate_min = 3

abbrev pub error_nomem : ℕ
error_nomem = 1

abbrev pub error_transport : ℕ
error_transport = 2

error_rec : ℕ → ℕ → ErrorRec
error_rec err_num threshold = record {
  err_num = err_num;
  total_count = 0;
  unreported_count = 0;
  last_report_time_msec = 0;
  last_occurrence_time_msec = 0;
  exp_avg_interval_msec = 0;
  last_reported = false;
  err_per_sec_threshold = threshold;
}

pub error_report_init : List ErrorRec
unfolding error_rec
error_report_init = error_rec error_nomem 0 ∷ error_rec error_transport 5 ∷ []

-- The time between two instants, in either order, as an `unsigned int`.
pub since : ℕ → ℕ → ℕ
since now before = (if leb before now then now - before else before - now) % 2 ^ 32

pub decay_percent : ℕ → ℕ
decay_percent elapsed =
    max (min (50 * elapsed % 2 ^ 32 / err_rate_decay_rate_msec_per_half) 100)
      err_rate_decay_rate_min

-- The new average; the products are `unsigned long` and `unsigned int`.
pub exp_avg : ℕ → ℕ → ℕ
exp_avg average elapsed =
    let decay = decay_percent elapsed in
    max (((100 - decay) * average % 2 ^ 64 + decay * elapsed % 2 ^ 32) % 2 ^ 64 / 100 % 2 ^ 32) 1

-- What happens to the record, and whether it is the time to be verbose. `now` is `now_msec`.
pub report_error : ErrorRec → ℕ → ErrorRec × Bool
report_error e now =
    let since_last_report = since now e.last_report_time_msec in
    let since_last_occurrence = since now e.last_occurrence_time_msec in
    let prev_rate = 1000 / max (e.exp_avg_interval_msec % 2 ^ 32) 1 in
    let average = exp_avg e.exp_avg_interval_msec since_last_occurrence in
    let rate = 1000 / average in
    let counted = record e {
      total_count = add_u32 e.total_count 1;
      last_occurrence_time_msec = now;
      exp_avg_interval_msec = average;
    } in
    if ltb since_last_report min_err_report_interval_msec
      && not (ltb prev_rate e.err_per_sec_threshold && leb e.err_per_sec_threshold rate)
    then (
      record counted { unreported_count = add_u32 e.unreported_count 1; last_reported = false },
      false,
    )
    else (
      record counted { last_report_time_msec = now; last_reported = true; unreported_count = 0 },
      true,
    )

-- `__iccom_get_error_rec` and the report through the pointer that it returns; an unknown error
-- number changes nothing, and is verbose. `now_ns` is `ktime_get()`.
pub error_report : List ErrorRec → ℕ → ℕ → List ErrorRec × Bool
error_report [] err_no now_ns = ([], true)
error_report (e ∷ es) err_no now_ns =
    let (e', verbose) = report_error e (now_ns / 1000000 % 2 ^ 32) in
    let (es', verbose') = error_report es err_no now_ns in
    if e.err_num == err_no then (e' ∷ es, verbose) else (e ∷ es', verbose')
