-- ===== src/Libiccom/Loopback.antt =====
-- The loopback of channels: what the library writes to the control file of the driver, and what it
-- reads from it.
pub mod Installed
use iccom_utils.Base.{
  ℕ, ◌+◌, ◌^◌, ◌≤◌, ◌<◌, ◌≡◌, ◌≢◌, refl, arith, List, [], ◌∷◌, Bool, true, false, not, ◌&&◌, Option,
  none, some, ◌==◌, leb, ltb, if◌then◌else◌, length,
}
use iccom_utils.Int32
use iccom_utils.Socket.{Rule}
use iccom_utils.Libiccom.{
  IntResult, done, failed, errno_einval, errno_ebadf, errno_eio, area_prime, area_any, area_verify,
}

-- Behind `fopen`: the file gets the line, and 0 is returned also where `fprintf` fails.
enable_opened : IntResult → Bool → List ℕ → IntResult × Option (List ℕ)
enable_opened (failed e) printed line = (failed errno_ebadf, none)
enable_opened (done n) printed line = (done 0, if printed then some line else none)

-- The answers of `fopen` and of `fprintf`, and `print_line`, which is `fprintf` of three ints with
-- blanks between them and a line break. The fields of the rule are the three arguments. The result
-- has the text that goes to the file.
pub loopback_enable : (Rule → List ℕ) → Rule → IntResult → Bool → IntResult × Option (List ℕ)
unfolding enable_opened
loopback_enable print_line rule opened printed =
    let dst_from_ch = Int32.add rule.from rule.shift in
    let dst_to_ch = Int32.add rule.to rule.shift in
    let out = enable_opened opened printed (print_line rule) in
    if ltb rule.to rule.from
    then (failed errno_einval, none)
    else if not (area_verify rule.from area_prime)
    then (failed errno_einval, none)
    else if not (area_verify rule.to area_prime)
    then (failed errno_einval, none)
    else if Int32.less rule.to (Int32.sub 0 rule.shift)
    then (failed errno_einval, none)
    else if not (area_verify dst_from_ch area_any)
    then (failed errno_einval, none)
    else if not (area_verify dst_to_ch area_any)
    then (failed errno_einval, none)
    else if leb dst_from_ch rule.to && leb rule.from dst_to_ch
    then (failed errno_einval, none)
    else out

-- "0 0 0" and a line break
abbrev pub off_line : List ℕ
off_line = 48 ∷ 32 ∷ 48 ∷ 32 ∷ 48 ∷ 10 ∷ []

-- `printed` is what `fprintf` answers, with the value of `ferror` for a failure.
disable_opened : IntResult → IntResult → IntResult × Option (List ℕ)
disable_opened (failed e) printed = (failed e, none)
disable_opened (done n) (failed e) = (failed e, none)
disable_opened (done n) (done n') = (done 0, some off_line)

pub loopback_disable : IntResult → IntResult → IntResult × Option (List ℕ)
unfolding disable_opened
loopback_disable opened printed = disable_opened opened printed

-- The numbers that `fscanf` converts go to the fields of `out` in turn.
abbrev scanned : List ℕ → Rule → Rule × Bool
scanned [] out = (out, false)
scanned (a ∷ []) out = (record out { from = a }, false)
scanned (a ∷ (b ∷ [])) out = (record out { from = a; to = b }, false)
scanned (a ∷ (b ∷ (c ∷ rest))) out = (record { from = a; to = b; shift = c }, true)

get_opened : IntResult → List ℕ → Rule → IntResult × Rule
get_opened (failed e) numbers out = (failed e, out)
get_opened (done n) numbers out =
    let (cfg, complete) = scanned numbers out in
    (if complete then done 0 else failed errno_eio, cfg)

get_to : IntResult → List ℕ → Option Rule → IntResult × Option Rule
unfolding get_opened
get_to opened numbers none = (failed errno_einval, none)
get_to opened numbers (some out) =
    let (status, cfg) = get_opened opened numbers out in (status, some cfg)

-- The answer of `fopen`, the numbers that `fscanf` finds, and what `out` points to; `none` is NULL.
pub loopback_get : IntResult → List ℕ → Option Rule → IntResult × Option Rule
unfolding get_to
loopback_get opened numbers out = get_to opened numbers out

active : IntResult × Option Rule → ℕ
active (failed e, cfg) = 0
active (done n, none) = 0
active (done n, some cfg) = if cfg.shift == 0 then 0 else 1

-- `stale` is what the local structure holds before.
pub loopback_is_active : IntResult → List ℕ → Rule → ℕ
unfolding active
loopback_is_active opened numbers stale = active (loopback_get opened numbers (some stale))
