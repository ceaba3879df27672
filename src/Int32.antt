-- ===== src/Int32.antt =====
-- The `int` of the C sources, as a 32-bit pattern: sums wrap, comparisons read the sign bit.
use iccom_utils.Base.{ℕ, ◌+◌, ◌-◌, ◌%◌, ◌^◌, Bool, ltb, leb, if◌then◌else◌}

abbrev pub add : ℕ → ℕ → ℕ
add a b = (a + b) % 2 ^ 32

abbrev pub sub : ℕ → ℕ → ℕ
sub a b = (a + 2 ^ 32 - b) % 2 ^ 32

-- The order of the signed values.
abbrev pub biased : ℕ → ℕ
biased a = (a + 2 ^ 31) % 2 ^ 32

abbrev pub less : ℕ → ℕ → Bool
less a b = ltb (biased a) (biased b)

abbrev pub less_equal : ℕ → ℕ → Bool
less_equal a b = leb (biased a) (biased b)

-- `abs`
abbrev pub magnitude : ℕ → ℕ
magnitude a = if leb (2 ^ 31) a then (2 ^ 32 - a) % 2 ^ 32 else a
