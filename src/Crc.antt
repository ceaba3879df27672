-- ===== src/Crc.antt =====
-- driver/iccom.c, the CRC32 of a package: `iccom_crc32_lookup_tbl`,
-- `__iccom_crc32_gen_lookup_table` and `__iccom_compute_crc32`.
use Prim.Native.Nat.{bit_xor}
use iccom_utils.Base.{ℕ, zero, suc, ◌+◌, ◌-◌, ◌/◌, ◌%◌, ◌^◌, ◌<◌, arith, List, [], ◌∷◌}
use iccom_utils.Base.{◌==◌, if◌then◌else◌, get_or}

abbrev pub polynomial : ℕ
polynomial = 0xEDB88320

-- One round of the inner loop: `(crc & TOP_BIT) ? ((crc >> 1) ^ POLYNOMIAL) : (crc >> 1)`.
pub crc_bit : ℕ → ℕ
crc_bit crc = if crc % 2 == 1 then bit_xor (crc / 2) polynomial else crc / 2

-- The inner loop, with the rounds that are left.
pub crc_bits : ℕ → ℕ → ℕ
crc_bits zero crc = crc
crc_bits (suc left) crc = crc_bits left (crc_bit crc)

-- The outer loop from entry `i`, with the entries that are left.
pub gen_entries : ℕ → ℕ → List ℕ
gen_entries zero i = []
gen_entries (suc left) i = crc_bits 8 i ∷ gen_entries left (i + 1)

-- `__iccom_crc32_gen_lookup_table`: all 256 entries.
pub gen_lookup_table : List ℕ
gen_lookup_table = gen_entries 256 0

-- The body of the loop over the bytes; `& 0xFF` is `% 256`.
pub crc_byte : List ℕ → ℕ → ℕ → ℕ
crc_byte table crc byte = bit_xor (crc / 2 ^ 8) (get_or table (bit_xor crc byte % 256) 0)

pub crc_loop : List ℕ → ℕ → List ℕ → ℕ
crc_loop table crc [] = crc
crc_loop table crc (b ∷ bytes) = crc_loop table (crc_byte table crc b) bytes

-- `__iccom_compute_crc32` over the generated table; `~crc` of a `uint32_t`.
pub compute_crc32 : List ℕ → ℕ
compute_crc32 bytes = 2 ^ 32 - 1 - crc_loop gen_lookup_table (2 ^ 32 - 1) bytes

pub compute_crc32-lt : (bytes : List ℕ) → compute_crc32 bytes < 2 ^ 32
unfolding compute_crc32
compute_crc32-lt bytes = omega arith
