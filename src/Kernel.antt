-- ===== src/Kernel.antt =====
-- What the driver takes from the kernel: error numbers, machine words, and `kmalloc`.
-- Whether an allocation succeeds, and what the fresh memory holds, is decided by the
-- environment: a schedule says it for each allocation in turn.
use iccom_utils.Base.{ℕ, ◌+◌, ◌-◌, ◌/◌, ◌%◌, ◌^◌, ◌≡◌, ◌⊎◌, inl, inr, refl, arith}
use iccom_utils.Base.{Bool, true, false, Option, none, some, List, [], ◌∷◌, ◌++◌}
use iccom_utils.Base.{length, take, replicate, length-append, length-take, length-replicate}

-- The negated error numbers that the driver returns.
pub data Errno : Type 0 where
  enomem ealready einval ebadf eacces ebadmsg enodata ebadslt ebadfd enodev efault eagain epipe eio
        enoent econnrefused :
      Errno

-- An `int` result: 0, or a negated error number.
pub data Status : Type 0 where
  ok : Status
  err : Errno → Status

-- The outcome of one allocation.
pub data Grant : Type 0 where
  refused : Grant
  granted : List ℕ → Grant

-- An empty schedule grants everything.
abbrev pub Memory : Type 0
Memory = List Grant

-- The first `n` bytes of the area that the schedule grants.
abbrev pub fit : ℕ → List ℕ → List ℕ
fit n junk = take n (junk ++ replicate n 0)

unfoldable pub kmalloc : ℕ → Memory → Option (List ℕ) × Memory
kmalloc n [] = (some (fit n []), [])
kmalloc n (refused ∷ m) = (none, m)
kmalloc n (granted junk ∷ m) = (some (fit n junk), m)

-- `kmalloc` of a structure that the caller initialises.
unfoldable pub kmalloc_struct : Memory → Bool × Memory
kmalloc_struct [] = (true, [])
kmalloc_struct (refused ∷ m) = (false, m)
kmalloc_struct (granted junk ∷ m) = (true, m)

-- `size_t` subtraction.
abbrev pub sub_size : ℕ → ℕ → ℕ
sub_size a b = (a + 2 ^ 64 - b) % 2 ^ 64

-- `__cpu_to_be16` of a 16-bit value, as the two bytes in memory.
abbrev pub be16 : ℕ → List ℕ
be16 n = (n % 2 ^ 16 / 256) ∷ (n % 256) ∷ []

-- A `uint32_t` stored by a little-endian CPU.
abbrev pub le32 : ℕ → List ℕ
le32 n = (n % 256) ∷ (n / 2 ^ 8 % 256) ∷ (n / 2 ^ 16 % 256) ∷ (n / 2 ^ 24 % 256) ∷ []

pub length-fit : (n : ℕ) (junk : List ℕ) → length (fit n junk) ≡ n
length-fit n junk = omega (
  arith,
  length-take n (junk ++ replicate n 0),
  length-append junk (replicate n 0),
  length-replicate n (let z : ℕ = 0 in z),
)

-- An allocation fails, or gives as many bytes as asked for.
pub kmalloc-cases :
    (n : ℕ) (m : Memory)
    → ((kmalloc n m).0 ≡ none)
      ⊎ ((area : List ℕ) × ((kmalloc n m).0 ≡ some area) × (length area ≡ n))
unfolding kmalloc
kmalloc-cases n [] = inr (fit n [], refl, length-fit n [])
kmalloc-cases n (refused ∷ m) = inl refl
kmalloc-cases n (granted junk ∷ m) = inr (fit n junk, refl, length-fit n junk)
