-- ===== src/Device/Queue/Enqueue.antt =====
-- The queue seen from its end: what the operations on the last package and the enqueuing of a new
-- one do to a queue `front ++ p ∷ []`.
use iccom_utils.Base.{ℕ, ◌%◌, ◌≡◌, refl, ap, ◌⊎◌, inl, inr}
use iccom_utils.Base.{List, [], ◌∷◌, ◌++◌, Bool, true, some, length, take, drop}
use iccom_utils.Base.{append_assoc, append-nil, Bool-cases}
use iccom_utils.Kernel.{Status, ok, err, Errno, Memory, kmalloc_struct}
use iccom_utils.Package.{Package, package_finalize, data_xfer_size}
use iccom_utils.Package.{payload_size, verify_package_data}
use iccom_utils.Package.Layout.{Fits, pkg, payload_size-pkg, payload-pkg}
use iccom_utils.Package.Fresh.{fresh_free, fresh_crc, set_id-fresh, package_init-cases}
use iccom_utils.Package.Fresh.{package_init-nil}
use iccom_utils.Package.Finalize.{package_finalize-pkg, Fits-padding, verify-finalized}
use iccom_utils.Packet.{package_add_packet}
use iccom_utils.Device.{Tx}
use iccom_utils.Device.Queue.{update_last, add_to_last, enqueue_new_tx_data_package}
use iccom_utils.Device.Queue.{get_next_package_id}

abbrev pub snoc : List Package → Package → List Package
snoc front p = front ++ p ∷ []

pub update_last-snoc :
    (f : Package → Package) (front : List Package) (p : Package)
    → update_last f (snoc front p) ≡ snoc front (f p)
unfolding update_last
update_last-snoc f [] p = refl
update_last-snoc f (q ∷ []) p = refl
update_last-snoc f (q ∷ r ∷ front) p = ap (λ t. q ∷ t) (update_last-snoc f (r ∷ front) p)

pub add_to_last-snoc :
    (front : List Package) (p : Package) (rest : List ℕ) (n channel : ℕ)
    → add_to_last (snoc front p) rest n channel ≡ (
      (package_add_packet p rest n channel).0,
      snoc front (package_add_packet p rest n channel).1,
    )
unfolding add_to_last
add_to_last-snoc [] p rest n channel = refl
add_to_last-snoc (q ∷ []) p rest n channel = refl
add_to_last-snoc (q ∷ r ∷ front) p rest n channel =
    ap {B = ℕ × List Package} (λ t. (t.0, q ∷ t.1)) (add_to_last-snoc (r ∷ front) p rest n channel)

-- The payload that a receiver reads from a package.
abbrev pub payload_of : Package → List ℕ
payload_of p = take (payload_size p).0 (drop 3 p.bytes)

-- The payloads of the queue in the order of sending.
abbrev pub stream : List Package → List ℕ
stream [] = []
stream (p ∷ ps) = payload_of p ++ stream ps

-- A package that the other side accepts, with the payload that it declares.
abbrev pub IsReady : Package → Type 0
IsReady p = verify_package_data p ≡ some (payload_size p).0

pub payload_of-pkg :
    (owns : Bool) (id : ℕ) {size : ℕ} {c f k : List ℕ}
    → Fits size c f k
    → payload_of (pkg size owns id c f k) ≡ c
payload_of-pkg owns id fits = rw (payload_size-pkg owns id fits) (payload-pkg owns id fits)

pub stream-snoc :
    (front : List Package) (p : Package) → stream (snoc front p) ≡ stream front ++ payload_of p
stream-snoc [] p = simp append-nil
stream-snoc (q ∷ front) p = rw (stream-snoc front p, append_assoc) refl

-- A finalised package is ready, and its payload is what it was.
pub finalized-IsReady :
    (id : ℕ) {c f k : List ℕ}
    → Fits data_xfer_size c f k
    → IsReady (package_finalize (pkg data_xfer_size true id c f k))
      × (payload_of (package_finalize (pkg data_xfer_size true id c f k)) ≡ c)
finalized-IsReady id fits = rw (package_finalize-pkg true id fits) (
  rw (payload_size-pkg true id (Fits-padding id fits)) (verify-finalized true id fits),
  payload_of-pkg true id (Fits-padding id fits),
)

-- A finalised package of the driver's size.
pub record IsSealed (p : Package) : Type 0 where
  pub id : ℕ
  pub content : List ℕ
  pub free : List ℕ
  pub crc : List ℕ
  pub fits : Fits data_xfer_size content free crc
  pub made : p ≡ package_finalize (pkg data_xfer_size true id content free crc)

pub IsSealed-IsReady : {p : Package} → IsSealed p → IsReady p
IsSealed-IsReady s = rw s.made (finalized-IsReady s.id s.fits).0

-- What enqueuing does to a queue that is `front` once its last package is finalised: a new empty
-- package over some fresh memory at the end, or no memory.
pub data Enqueued (front : List Package) : Status → List Package → Type 0 where
  grown :
      (id : ℕ) (fresh : List ℕ) {status : Status} {ps : List Package}
      → length fresh ≡ 256
      → status ≡ ok
      → ps ≡ snoc front (pkg data_xfer_size true id [] (fresh_free fresh) (fresh_crc fresh))
      → Enqueued front status ps
  no_memory :
      {status : Status} {ps : List Package}
      → status ≡ err Errno.enomem
      → ps ≡ front
      → Enqueued front status ps

pub Enqueued-cases :
    {front : List Package} {status : Status} {ps : List Package}
    → Enqueued front status ps
    → ((id : ℕ) × (fresh : List ℕ) × (length fresh ≡ 256)
        × (status ≡ ok)
        × (ps ≡ snoc front (pkg data_xfer_size true id [] (fresh_free fresh) (fresh_crc fresh))))
      ⊎ (status ≡ err Errno.enomem)
Enqueued-cases (grown id fresh len e e') = inl (id, fresh, len, e, e')
Enqueued-cases (no_memory e e') = inr e

pub enqueue_new-Enqueued :
    (t : Tx) (front : List Package) (m : Memory)
    → update_last package_finalize t.packages ≡ front
    → Enqueued front
        (enqueue_new_tx_data_package t m).0
        (enqueue_new_tx_data_package t m).1.packages
unfolding enqueue_new_tx_data_package
enqueue_new-Enqueued t front m e = elim (Bool-cases (kmalloc_struct m).0) [
  | inr refusal ↦ rw refusal (no_memory refl e)
  | inl grant ↦ rw grant (elim (package_init-cases (kmalloc_struct m).1) [
    | inl failed ↦ rw failed (no_memory refl e)
    | inr (fresh, len, made) ↦ rw made (
        grown
          ((get_next_package_id (record t { packages = update_last package_finalize t.packages })).0
            % 256)
          fresh len refl (rw (e, set_id-fresh fresh _ len) refl))
  ])
]

-- With memory for all there is no refusal.
pub enqueue_new-nil :
    (t : Tx)
    → ((enqueue_new_tx_data_package t []).0 ≡ ok) × ((enqueue_new_tx_data_package t []).2 ≡ [])
unfolding enqueue_new_tx_data_package kmalloc_struct
enqueue_new-nil t = rw package_init-nil (refl, refl)
