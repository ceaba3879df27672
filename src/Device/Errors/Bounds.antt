-- ===== src/Device/Errors/Bounds.antt =====
-- The arithmetic of the error rate: no division by zero, and an average that stays between what
-- it averages.
use Prim.Native.Nat.{max}
use native.Mathlib.Nat.{mul-le-mul_left}
use iccom_utils.Base.{ℕ, ◌+◌, ◌-◌, ◌*◌, ◌≤◌, ◌≡◌, ap, arith}
use iccom_utils.Device.Errors.{decay_percent, exp_avg}

-- The decay rate is a percentage of at least the least rate.
pub decay_percent_bounds :
    (elapsed : ℕ) → (3 ≤ decay_percent elapsed) × (decay_percent elapsed ≤ 100)
unfolding decay_percent
decay_percent_bounds elapsed = omega arith

-- A weighted sum lies between the same multiples of a lower and of an upper bound.
weighted_le : (q d a e b : ℕ) → q + d ≡ 100 → a ≤ b → e ≤ b → q * a + d * e ≤ 100 * b
weighted_le q d a e b h p r =
    omega (arith, mul-le-mul_left q p, mul-le-mul_left d r, ap (λ (t : ℕ). t * b) h)

weighted_ge : (q d a e b : ℕ) → q + d ≡ 100 → b ≤ a → b ≤ e → 100 * b ≤ q * a + d * e
weighted_ge q d a e b h p r =
    omega (arith, mul-le-mul_left q p, mul-le-mul_left d r, ap (λ (t : ℕ). t * b) h)

-- If the old average interval of an error and the elapsed time lie between two bounds of at most
-- 42949672 ms, the new average lies between the same bounds, except that it is at least 1.
pub exp_avg_between :
    (average elapsed lo hi : ℕ)
    → lo ≤ average
    → lo ≤ elapsed
    → average ≤ hi
    → elapsed ≤ hi
    → hi ≤ 42949672
    → (lo ≤ exp_avg average elapsed)
      × (exp_avg average elapsed ≤ max hi 1)
      × (1 ≤ exp_avg average elapsed)
unfolding exp_avg
exp_avg_between average elapsed lo hi a b c d h =
    let p : ℕ = decay_percent elapsed in
    let whole : (100 - p) + p ≡ 100 = omega (arith, decay_percent_bounds elapsed) in
    let up = weighted_le (100 - p) p average elapsed hi whole c d in
    let down = weighted_ge (100 - p) p average elapsed lo whole a b in omega (arith, up, down)
