-- ===== src/Package.antt =====
-- driver/iccom.c, the raw package and its manipulation: `struct iccom_package` and the
-- `__iccom_package_*` functions.
pub mod Layout
pub mod Unused
pub mod Finalize
pub mod Fresh
pub mod Identity
use iccom_utils.Base.{ℕ, zero, suc, ◌+◌, ◌-◌, ◌*◌, ◌/◌, ◌%◌, ◌^◌, List, [], ◌∷◌}
use iccom_utils.Base.{Bool, true, false, Option, none, some}
use iccom_utils.Base.{◌==◌, leb, if◌then◌else◌, get_or, take, drop, replicate, write_at}
use iccom_utils.Kernel.{Memory, kmalloc, sub_size, be16, le32}
use iccom_utils.Crc.{compute_crc32}

-- `struct iccom_package` with the memory that `data` points to.
pub record Package : Type 0 where
  pub bytes : List ℕ
  pub size : ℕ
  pub owns_data : Bool

abbrev pub length_field_size : ℕ
length_field_size = 2

abbrev pub id_field_size : ℕ
id_field_size = 1

abbrev pub crc_field_size : ℕ
crc_field_size = 4

abbrev pub empty_payload_value : ℕ
empty_payload_value = 0xFF

-- `ICCOM_DATA_XFER_SIZE_BYTES` and `ICCOM_ACK_XFER_SIZE_BYTES`
abbrev pub data_xfer_size : ℕ
data_xfer_size = 256

abbrev pub ack_xfer_size : ℕ
ack_xfer_size = 1

pub payload_room_size : Package → ℕ
payload_room_size p =
    sub_size (sub_size (sub_size p.size length_field_size) id_field_size) crc_field_size

pub set_payload_size : Package → ℕ → Package
set_payload_size p len = record p { bytes = write_at p.bytes 0 (be16 len) }

-- The big-endian length field.
pub declared_size : Package → ℕ
declared_size p = get_or p.bytes 0 0 * 256 + get_or p.bytes 1 0

-- The payload size with `*ok__out`.
pub payload_size : Package → ℕ × Bool
payload_size p =
    if leb (declared_size p) (payload_room_size p) then (declared_size p, true) else (0, false)

unfoldable pub payload_start_offset : ℕ
payload_start_offset = length_field_size + id_field_size

pub payload_free_space : Package → ℕ × Bool
payload_free_space p = let (size, good) = payload_size p in (payload_room_size p - size, good)

pub set_id : Package → ℕ → Package
set_id p id = record p { bytes = write_at p.bytes length_field_size ((id % 256) ∷ []) }

pub get_id : Package → ℕ
get_id p = get_or p.bytes length_field_size 0

pub set_src : Package → ℕ → Package
set_src p src = record p { bytes = write_at p.bytes (p.size - crc_field_size) (le32 src) }

-- A little-endian 32-bit word at the front of an area.
abbrev pub word32 : List ℕ → ℕ
word32 bytes =
    get_or bytes 0 0
    + get_or bytes 1 0 * 2 ^ 8
    + get_or bytes 2 0 * 2 ^ 16
    + get_or bytes 3 0 * 2 ^ 24

pub get_src : Package → ℕ
get_src p = word32 (drop (p.size - crc_field_size) p.bytes)

-- The offset of the first free payload byte; `none` is NULL.
pub free_space_start : Package → Option ℕ × Bool
free_space_start p =
    let (free, good) = payload_free_space p in
    if free == 0 then (none, good) else (some (p.size - crc_field_size - free), good)

-- `memset` at an offset that may be NULL when nothing is to be filled.
memset_at : List ℕ → Option ℕ → ℕ → ℕ → List ℕ
memset_at bytes none symbol n = bytes
memset_at bytes (some offset) symbol n = write_at bytes offset (replicate n symbol)

-- Returns the number of filled bytes.
pub fill_unused_payload : Package → ℕ → ℕ × Package
fill_unused_payload p symbol =
    let (free, good) = payload_free_space p in
    if free == 0
    then (free, p)
    else (free, record p { bytes = memset_at p.bytes (free_space_start p).0 symbol free })

-- The loop over 32-bit words, then the loop over the bytes that are left.
pub check_bytes : ℕ → List ℕ → ℕ → Bool
check_bytes zero bytes symbol = true
check_bytes (suc left) bytes symbol =
    let rest = check_bytes left (drop 1 bytes) symbol in
    if get_or bytes 0 0 == symbol then rest else false

pub check_words : ℕ → ℕ → List ℕ → ℕ → Bool
check_words zero tail bytes symbol = check_bytes tail bytes symbol
check_words (suc left) tail bytes symbol =
    let rest = check_words left tail (drop 4 bytes) symbol in
    -- the four copies of the symbol share no bit, so `|` is a sum
    if word32 bytes == symbol + symbol * 2 ^ 8 + symbol * 2 ^ 16 + symbol * 2 ^ 24
    then rest
    else false

-- What lies at an address that may be NULL.
area_at : List ℕ → Option ℕ → List ℕ
area_at bytes none = []
area_at bytes (some offset) = drop offset bytes

pub check_unused_payload : Package → ℕ → Bool
check_unused_payload p symbol =
    let (free, good) = payload_free_space p in
    let (start, good') = free_space_start p in
    if good
    then if good' then check_words (free / 4) (free % 4) (area_at p.bytes start) symbol else false
    else false

pub compute_src : Package → ℕ
compute_src p = compute_crc32 (take (p.size - crc_field_size) p.bytes)

-- The fresh memory is uninitialised but for the payload size.
init_package : ℕ → Option (List ℕ) → Option Package
init_package size none = none
init_package size (some fresh) =
    some (set_payload_size (record { bytes = fresh; size = size; owns_data = true }) 0)

-- `none` is -ENOMEM.
pub package_init : ℕ → Memory → Option Package × Memory
unfolding init_package
package_init size memory = let (fresh, m) = kmalloc size memory in (init_package size fresh, m)

pub package_finalize : Package → Package
package_finalize p =
    let filled = (fill_unused_payload p empty_payload_value).1 in
    set_src filled (compute_src filled)

pub package_make_empty : Package → Package
package_make_empty p = package_finalize (set_payload_size p 0)

pub verify_package_crc : Package → Bool
verify_package_crc p = get_src p == compute_src p

-- `none` is the -1 of the function.
pub verify_package_data : Package → Option ℕ
verify_package_data p =
    let (size, good) = payload_size p in
    if good
    then if check_unused_payload p empty_payload_value
      then if verify_package_crc p then some size else none
      else none
    else none
