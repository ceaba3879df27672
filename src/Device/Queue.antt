-- ===== src/Device/Queue.antt =====
-- driver/iccom.c, the queue of packages to send: package IDs, and the `__iccom_enqueue_*` and
-- `__iccom_queue_*` functions. The queue's mutex makes each operation one step.
pub mod Ids
pub mod Enqueue
pub mod Append
pub mod Loop
pub mod Post
pub mod Step
pub mod Chain
pub mod First
use iccom_utils.Base.{ℕ, zero, suc, ◌+◌, ◌-◌, ◌*◌, ◌%◌, ◌^◌, List, [], ◌∷◌, ◌++◌}
use iccom_utils.Base.{Bool, true, false, ◌||◌, Option, none, some, ◌==◌, leb, if◌then◌else◌, drop}
use iccom_utils.Kernel.{Status, ok, err, Errno, Memory, kmalloc_struct}
use iccom_utils.Package.{Package, set_id, package_init, package_finalize, package_make_empty}
use iccom_utils.Package.{data_xfer_size}
use iccom_utils.Packet.{package_add_packet}
use iccom_utils.Device.{Tx, add_u64, initial_package_id}

-- `next_tx_package_id++`, and the reset if the `int` is not positive any more.
pub get_next_package_id : Tx → ℕ × Tx
get_next_package_id t =
    let next = (t.next_tx_package_id + 1) % 2 ^ 32 in
    (
      t.next_tx_package_id,
      record t {
        next_tx_package_id = if next == 0 || leb (2 ^ 31) next then initial_package_id else next;
      },
    )

pub have_packages : Tx → Bool
have_packages t = elim t.packages [ [] ↦ false | p ∷ ps ↦ true ]

first_package : List Package → Option Package
first_package [] = none
first_package (p ∷ ps) = some p

pub get_first_tx_package : Tx → Option Package
unfolding first_package
get_first_tx_package t = first_package t.packages

last_package : List Package → Option Package
last_package [] = none
last_package (p ∷ []) = some p
last_package (p ∷ q ∷ ps) = last_package (q ∷ ps)

pub get_last_tx_package : Tx → Option Package
unfolding last_package
get_last_tx_package t = last_package t.packages

-- An update through the pointer that `__iccom_get_last_tx_package` returns.
pub update_last : (Package → Package) → List Package → List Package
update_last f [] = []
update_last f (p ∷ []) = f p ∷ []
update_last f (p ∷ q ∷ ps) = p ∷ update_last f (q ∷ ps)

pub is_multiple : List Package → Bool
is_multiple [] = false
is_multiple (p ∷ []) = false
is_multiple (p ∷ q ∷ ps) = true

pub have_multiple_packages : Tx → Bool
unfolding is_multiple
have_multiple_packages t = is_multiple t.packages

-- The new package at the end of the queue, with its ID.
append_package : Package → Tx → Tx
append_package p t =
    let (id, t') = get_next_package_id t in
    record t' {
      packages = t.packages ++ set_id p id ∷ [];
      packages_in_tx_queue = add_u64 t.packages_in_tx_queue 1;
    }

enqueue_package : Option Package → Tx → Status × Tx
unfolding append_package
enqueue_package none t = (err Errno.enomem, t)
enqueue_package (some p) t = (ok, append_package p t)

-- The structure is allocated first, then the package's data.
pub enqueue_new_tx_data_package : Tx → Memory → Status × Tx × Memory
unfolding enqueue_package
enqueue_new_tx_data_package t m =
    let t' = record t { packages = update_last package_finalize t.packages } in
    let (granted, m₁) = kmalloc_struct m in
    let (fresh, m₂) = package_init data_xfer_size m₁ in
    let (status, t'') = enqueue_package fresh t' in
    if granted then (status, t'', m₂) else (err Errno.enomem, t', m₁)

-- What follows the enqueuing.
emptied : Status × Tx × Memory → Status × Tx × Memory
emptied (ok, t, m) = (ok, record t { packages = update_last package_make_empty t.packages }, m)
emptied (err e, t, m) = (err e, t, m)

pub enqueue_empty_tx_data_package : Tx → Memory → Status × Tx × Memory
unfolding emptied
enqueue_empty_tx_data_package t m = emptied (enqueue_new_tx_data_package t m)

-- The only package: emptied and given a new ID.
renew : ℕ → Package → Package
renew id p = package_make_empty (set_id p id)

step_packages : Tx → List Package → Bool × Tx
unfolding renew
step_packages t [] = (false, (get_next_package_id t).1)
step_packages t (p ∷ []) =
    let (id, t') = get_next_package_id t in (false, record t' { packages = renew id p ∷ [] })
step_packages t (p ∷ q ∷ ps) = (
  true,
  record t {
    packages = q ∷ ps;
    packages_in_tx_queue = add_u64 t.packages_in_tx_queue (2 ^ 64 - 1);
  },
)

-- Tells whether there is a non-empty package to send. The queue is never empty here.
pub queue_step_forward : Tx → Bool × Tx
unfolding step_packages
queue_step_forward t = step_packages t t.packages

-- `iccom_package_add_packet` on the last package; NULL writes nothing.
pub add_to_last : List Package → List ℕ → ℕ → ℕ → ℕ × List Package
add_to_last [] rest n channel = (0, [])
add_to_last (p ∷ []) rest n channel =
    let (written, p') = package_add_packet p rest n channel in (written, p' ∷ [])
add_to_last (p ∷ q ∷ ps) rest n channel =
    let (written, ps') = add_to_last (q ∷ ps) rest n channel in (written, p ∷ ps')

-- `goto finalize` after a failed step, else on with the loop.
abbrev pub resume :
    Status → Tx → Memory → Option (Status × Tx × Memory) → Option (Status × Tx × Memory)
resume ok t m further = further
resume (err e) t m further = some (err e, t, m)

-- The `while` loop, on fuel: `rest` is `data + bytes_written`, of which `n` bytes are to be
-- written. `none` means that the fuel ran out.
pub append_loop : ℕ → Tx → List ℕ → ℕ → ℕ → Memory → Option (Status × Tx × Memory)
append_loop zero t rest n channel m = none
append_loop (suc fuel) t rest n channel m =
    let (written, packages) = add_to_last t.packages rest n channel in
    let t' = record t { packages = packages } in
    let (status, t'', m') = enqueue_new_tx_data_package t' m in
    let again = append_loop fuel t' (drop written rest) (n - written) channel m in
    let further = append_loop fuel t'' rest n channel m' in
    if n == 0 then some (ok, t, m) else if written == 0 then resume status t'' m' further else again

-- Two rounds for each byte are enough.
abbrev pub append_fuel : ℕ → ℕ
append_fuel length = 2 * length + 2

finish : Option (Status × Tx × Memory) → Option (Status × Tx × Memory)
finish none = none
finish (some (ok, t, m)) =
    some (ok, record t { packages = update_last package_finalize t.packages }, m)
finish (some (err e, t, m)) = some (err e, t, m)

-- The first package is taken to be on its way, so a message starts in the second or later.
pub queue_append_message : Tx → List ℕ → ℕ → ℕ → Memory → Option (Status × Tx × Memory)
unfolding finish
queue_append_message t content length channel m =
    let (status, t', m') = enqueue_new_tx_data_package t m in
    let fuel = append_fuel length in
    let direct = finish (append_loop fuel t content length channel m) in
    let behind_new = finish (append_loop fuel t' content length channel m') in
    if have_multiple_packages t then direct else resume status t' m' behind_new
