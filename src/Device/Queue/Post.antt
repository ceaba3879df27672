-- ===== src/Device/Queue/Post.antt =====
-- `__iccom_queue_append_message` as a whole: the package in flight is not touched, every package
-- stays sealed, and the stream of payloads grows by the message in packets.
use iccom_utils.Base.{ℕ, ◌<◌, ◌≡◌, ◌≢◌, refl, arith, ap, ap₂, sym, subst, ◌∙◌}
use iccom_utils.Base.{List, [], ◌∷◌, ◌++◌, true, Option, some, length, All}
use iccom_utils.Base.{append_assoc, append-nil, ◌⊎◌, inl, inr, length-replicate}
use iccom_utils.Kernel.{Status, ok, err, Errno, Memory}
use iccom_utils.Package.{Package, data_xfer_size, package_finalize, empty_payload_value}
use iccom_utils.Package.Layout.{Fits, pkg}
use iccom_utils.Package.Finalize.{package_finalize-pkg, padding, crc_of, Fits-padding}
use iccom_utils.Package.Fresh.{fresh_free, fresh_crc, Fits-fresh}
use iccom_utils.Packet.Message.{Carries}
use iccom_utils.Device.{Tx}
use iccom_utils.Device.Queue.{append_loop, append_fuel, finish, queue_append_message, update_last}
use iccom_utils.Device.Queue.{
  enqueue_new_tx_data_package, have_multiple_packages, resume, is_multiple,
}
use iccom_utils.Device.Queue.Enqueue.{snoc, stream, payload_of, IsSealed, finalized-IsReady}
use iccom_utils.Device.Queue.Enqueue.{
  Enqueued, enqueue_new-Enqueued, Enqueued-cases, enqueue_new-nil,
}
use iccom_utils.Device.Queue.Enqueue.{update_last-snoc, stream-snoc}
use iccom_utils.Device.Queue.Append.{Looped, appended, refusal}
use iccom_utils.Device.Queue.Loop.{append_loop-Looped, cost}

-- What posting `msg` to a queue `ps` that begins with `first` leads to.
abbrev pub Posted :
    List Package → Package → List ℕ → ℕ → Memory → Option (Status × Tx × Memory) → Type 0
Posted ps first msg channel m r =
    ((t' : Tx) × (m' : Memory) × (behind : List Package) × (bytes : List ℕ) × (r
        ≡ some (ok, t', m'))
      × (t'.packages ≡ first ∷ behind)
      × All IsSealed t'.packages
      × Carries channel msg bytes
      × (stream t'.packages ≡ stream ps ++ bytes))
    ⊎ ((t' : Tx) × (m' : Memory) × (r ≡ some (err Errno.enomem, t', m')) × (m ≢ []))

-- A sealed package in terms of its layout.
pub sealed_as :
    {p : Package} (s : IsSealed p)
    → p
      ≡ pkg data_xfer_size true s.id s.content
          (padding s.free)
          (crc_of s.id s.content (padding s.free))
sealed_as s = s.made ∙ package_finalize-pkg true s.id s.fits

-- Finalising a sealed package changes nothing.
package_finalize-sealed : {p : Package} → IsSealed p → package_finalize p ≡ p
package_finalize-sealed s =
    rw
      (
        sealed_as s,
        package_finalize-pkg true s.id (Fits-padding s.id s.fits),
        length-replicate (length s.free) empty_payload_value,
      )
      refl

All-append {ℓ κ} :
    {A : Type ℓ} (P : A → Type κ) (xs ys : List A) → All P xs → All P ys → All P (xs ++ ys)
All-append P [] ys h k = k
All-append P (x ∷ xs) ys h k = (h.0, All-append P xs ys h.1 k)

-- The last of at least one package.
All-snoc :
    (q : Package) (qs : List Package)
    → All IsSealed (q ∷ qs)
    → (front : List Package) × (p : Package) × (q ∷ qs ≡ snoc front p)
      × All IsSealed front
      × IsSealed p
All-snoc q [] h = ([], q, refl, tt, h.0)
All-snoc q (r ∷ qs) h =
    let (front, p, e, sealed, s) = All-snoc r qs h.1 in
    (q ∷ front, p, ap (λ t. q ∷ t) e, (h.0, sealed), s)

stream-append : (ps qs : List Package) → stream (ps ++ qs) ≡ stream ps ++ stream qs
stream-append [] qs = refl
stream-append (p ∷ ps) qs = rw (stream-append ps qs, append_assoc) refl

regroup :
    (xs ys zs c bytes : List ℕ) → ys ++ zs ≡ c ++ bytes → (xs ++ ys) ++ zs ≡ (xs ++ c) ++ bytes
regroup xs ys zs c bytes e =
    append_assoc xs ys zs ∙ ap (λ t. xs ++ t) e ∙ sym (append_assoc xs c bytes)

-- The loop and the finalisation, from a queue with a last package that is being filled.
module _ (first : Package) (front : List Package) (id : ℕ) (c f k msg : List ℕ) (channel : ℕ)
    (fits : Fits data_xfer_size c f k) (sealed : All IsSealed (first ∷ front)) where
  finish-Posted :
      (ps : List Package) (m : Memory) {r : Option (Status × Tx × Memory)}
      → stream ps ≡ stream (first ∷ front) ++ c
      → Looped (first ∷ front) c msg channel m r
      → Posted ps first msg channel m (finish r)
  unfolding finish
  finish-Posted ps m start (refusal t' m' e ne) = inr (t', m', rw e refl, ne)
  finish-Posted ps m start (appended t' m' e a) = inl (
    record t' { packages = update_last package_finalize t'.packages },
    m',
    front
        ++ (a.extra ++ package_finalize (pkg data_xfer_size true a.id a.content a.free a.crc) ∷ []),
    a.bytes,
    rw e refl,
    packages_eq ∙ ap (λ t. first ∷ t) (append_assoc front a.extra _),
    subst (All IsSealed) (sym packages_eq) (
        All-append IsSealed (first ∷ front ++ a.extra) _
          (All-append IsSealed (first ∷ front) a.extra sealed a.sealed) (last_sealed, tt)),
    a.carries,
    ap stream packages_eq
        ∙ stream-snoc (first ∷ front ++ a.extra) last
        ∙ ap₂ ◌++◌ (stream-append (first ∷ front) a.extra) (finalized-IsReady a.id a.fits).1
        ∙ regroup (stream (first ∷ front)) (stream a.extra) a.content c a.bytes a.sent
        ∙ ap (λ t. t ++ a.bytes) (sym start),
  )
    where
      last : Package
      last = package_finalize (pkg data_xfer_size true a.id a.content a.free a.crc)

      packages_eq : update_last package_finalize t'.packages ≡ snoc (first ∷ front ++ a.extra) last
      packages_eq = rw (a.shape) (update_last-snoc package_finalize (first ∷ front ++ a.extra) _)

      last_sealed : IsSealed last
      last_sealed = record {
        id = a.id;
        content = a.content;
        free = a.free;
        crc = a.crc;
        fits = a.fits;
        made = refl;
      }

  -- From a queue whose last package is being filled.
  loop-Posted :
      (ps : List Package) (t : Tx) (m : Memory)
      → stream ps ≡ stream (first ∷ front) ++ c
      → t.packages ≡ snoc (first ∷ front) (pkg data_xfer_size true id c f k)
      → 0 < length msg
      → Posted ps first msg channel m
          (finish (append_loop (append_fuel (length msg)) t msg (length msg) channel m))
  loop-Posted ps t m start shape pos = finish-Posted ps m start (
      append_loop-Looped (append_fuel (length msg)) t (first ∷ front) id c f k msg (length msg)
        channel m fits shape refl pos (omega (arith, cost (length f))))

payload_of-sealed : {p : Package} (s : IsSealed p) → payload_of p ≡ s.content
payload_of-sealed s = ap payload_of s.made ∙ (finalized-IsReady s.id s.fits).1

Posted-map :
    (ps : List Package) (first : Package) (msg : List ℕ) (channel : ℕ) (m m₁ : Memory)
    (r r₁ : Option (Status × Tx × Memory))
    → r ≡ r₁
    → (m ≡ [] → m₁ ≡ [])
    → Posted ps first msg channel m₁ r₁
    → Posted ps first msg channel m r
Posted-map ps first msg channel m m₁ r r₁ same keep (inl (t', m', behind, bytes, e, x, y, z, w)) =
    inl (t', m', behind, bytes, same ∙ e, x, y, z, w)
Posted-map ps first msg channel m m₁ r r₁ same keep (inr (t', m', e, ne)) =
    inr (t', m', same ∙ e, λ z. ne (keep z))

-- The only package is on its way: a new one is enqueued for the message.
append_behind_new :
    (t : Tx) (first : Package) (msg : List ℕ) (channel : ℕ) (m : Memory)
    → t.packages ≡ first ∷ []
    → IsSealed first
    → 0 < length msg
    → let (status, t', m') = enqueue_new_tx_data_package t m in
      Posted (first ∷ []) first msg channel m (
        resume status t' m'
          (finish (append_loop (append_fuel (length msg)) t' msg (length msg) channel m')))
append_behind_new t first msg channel m shape sealed pos = elim (Enqueued-cases enqueued) [
  | inl (id, fresh, len, e, e') ↦
      Posted-map (first ∷ []) first msg channel m m' (resume status t' m' again) again
        (ap (λ s. resume s t' m' again) e) (λ z. rw z (enqueue_new-nil t).1)
        (loop-Posted first [] id [] (fresh_free fresh) (fresh_crc fresh) msg channel
          (Fits-fresh fresh len) (sealed, tt) (first ∷ []) t' m' (sym (append-nil _)) e' pos)
  | inr e ↦ inr (t', m', ap (λ s. resume s t' m' again) e, λ z. cc ((enqueue_new-nil t).0, z, e))
]
  where
    status : Status
    status = (enqueue_new_tx_data_package t m).0

    t' : Tx
    t' = (enqueue_new_tx_data_package t m).1

    m' : Memory
    m' = (enqueue_new_tx_data_package t m).2

    again : Option (Status × Tx × Memory)
    again = finish (append_loop (append_fuel (length msg)) t' msg (length msg) channel m')

    enqueued : Enqueued (first ∷ []) status t'.packages
    enqueued = enqueue_new-Enqueued t (first ∷ []) m (
        rw (shape, update_last-snoc package_finalize [] first, package_finalize-sealed sealed) refl)

-- Posting a message of at least one byte to a queue of sealed packages ends. Either it succeeds:
-- all packages are sealed again, the first package, which may be on its way, is the same as
-- before, and the payloads that the queue is going to send are those from before followed by the
-- message, cut into packets of its channel of which only the last is marked complete. Or it
-- returns -ENOMEM, which takes a schedule of allocations that is not empty.
pub queue_append_message_lem :
    (t : Tx) (first : Package) (behind : List Package) (msg : List ℕ) (channel : ℕ) (m : Memory)
    → t.packages ≡ first ∷ behind
    → All IsSealed (first ∷ behind)
    → 0 < length msg
    → Posted
        (first ∷ behind)
        first
        msg
        channel
        m
        (queue_append_message t msg (length msg) channel m)
unfolding queue_append_message have_multiple_packages is_multiple
queue_append_message_lem t first [] msg channel m shape sealed pos =
    rw (ap is_multiple shape) (append_behind_new t first msg channel m shape sealed.0 pos)
queue_append_message_lem t first (q ∷ qs) msg channel m shape sealed pos =
    let (front, p, e, front_sealed, s) = All-snoc q qs sealed.1 in
    let shape' : t.packages
        ≡ snoc (first ∷ front) (
            pkg data_xfer_size true s.id s.content (padding s.free)
              (crc_of s.id s.content (padding s.free))) =
      shape ∙ ap (λ t. first ∷ t) e ∙ ap (snoc (first ∷ front)) (sealed_as s) in
    rw (ap is_multiple shape) (
      loop-Posted first front s.id s.content (padding s.free)
        (crc_of s.id s.content (padding s.free)) msg channel (Fits-padding s.id s.fits)
        (sealed.0, front_sealed) (first ∷ q ∷ qs) t m
        (ap (λ t. stream (first ∷ t)) e
          ∙ stream-snoc (first ∷ front) p
          ∙ ap (λ t. stream (first ∷ front) ++ t) (payload_of-sealed s))
        shape' pos)
