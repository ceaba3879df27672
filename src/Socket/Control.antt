-- ===== src/Socket/Control.antt =====
-- The loopback control file: `__iccom_sk_lback_rule_read` and `__iccom_sk_lback_rule_write`. The
-- outcomes of allocations and of copies from and to the user are arguments.
pub mod Chunks
pub mod Line
pub mod Update
use Prim.Native.Nat.{min}
use iccom_utils.Base.{
  ℕ, ◌+◌, ◌-◌, List, [], ◌∷◌, ◌++◌, Bool, true, false, not, ◌||◌, Option, none, some,
}
use iccom_utils.Base.{◌==◌, ltb, leb, if◌then◌else◌, length, take, drop}
use iccom_utils.Kernel.{Errno}
use iccom_utils.Socket.{Rule, SocketDevice}
use iccom_utils.Socket.Parse.{parse_lback_string}

-- An `ssize_t`: a number of bytes, or a negated error number.
pub data Size : Type 0 where
  bytes : ℕ → Size
  failed : Errno → Size

abbrev pub read_buffer_size : ℕ
read_buffer_size = 256

abbrev pub write_buffer_size : ℕ
write_buffer_size = 64

-- What the buffer of the reader holds up to `len`: the text that `snprintf` is asked for, cut to
-- the size of the buffer, and the NUL.
pub rule_text : List ℕ → List ℕ
rule_text text = take (read_buffer_size - 1) text ++ 0 ∷ []

-- The result, the bytes that reach the user, and the new position. `not_copied` is what
-- `copy_to_user` returns.
pub lback_rule_read : List ℕ → Bool → ℕ → ℕ → ℕ → Size × List ℕ × ℕ
lback_rule_read text granted count pos not_copied =
    let len = min (length text + 1) read_buffer_size in
    let nbytes_to_copy = if leb pos len then min (len - pos) count else 0 in
    let done = nbytes_to_copy - not_copied in
    if leb read_buffer_size pos
    then (bytes 0, [], pos)
    else if granted
    then (bytes done, take done (drop pos (rule_text text)), pos + done)
    else (failed Errno.enomem, [], pos)

-- What follows the parsing.
install_rule : SocketDevice → ℕ → Bool → Option Rule → Size × SocketDevice
install_rule d count granted none = (failed Errno.einval, d)
install_rule d count granted (some rule) =
    if granted
    then (bytes count, record d { lback_map_rule = some rule })
    else (failed Errno.enomem, d)

-- `ubuf` has `count` bytes, `stale` is what the result of the parsing holds before, and the last
-- argument tells whether the new rule is allocated.
pub lback_rule_write :
    (List ℕ → Option ℕ)
    → SocketDevice
    → List ℕ
    → ℕ
    → ℕ
    → Bool
    → ℕ
    → Rule
    → Bool
    → Size × SocketDevice
unfolding install_rule
lback_rule_write kstrtol d ubuf count pos buffer_granted not_copied stale rule_granted =
    let parsed = parse_lback_string kstrtol (take count ubuf) stale in
    let installed = install_rule d count rule_granted parsed in
    if not (pos == 0) || ltb write_buffer_size count
    then (failed Errno.efault, d)
    else if not buffer_granted
    then (failed Errno.enomem, d)
    else if not (not_copied == 0)
    then (failed Errno.eio, d)
    else installed
