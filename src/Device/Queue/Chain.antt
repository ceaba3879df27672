-- ===== src/Device/Queue/Chain.antt =====
-- The IDs in the queue: neighbours differ, and the last one differs from the next ID to be given.
pub mod Ends
pub mod Loop
use iccom_utils.Base.{
  ℕ, suc, zero, ◌%◌, ◌≡◌, ◌≢◌, ◌∙◌, refl, sym, ap, subst, ◌⊎◌, inl, inr, List, [], ◌∷◌, ◌++◌,
}
use iccom_utils.Base.{Bool, true, false, Option, none, some, Bool-cases}
use iccom_utils.Kernel.{Status, ok, err, Memory, kmalloc_struct}
use iccom_utils.Package.{
  Package, get_id, set_id, package_init, package_finalize, package_make_empty, data_xfer_size,
}
use iccom_utils.Package.Identity.{
  IsRaw, Keeps, package_finalize-Keeps, package_make_empty-Keeps, set_id-Raw, package_init-Raw,
}
use iccom_utils.Packet.{package_add_packet}
use iccom_utils.Packet.Identity.{package_add_packet-Keeps}
use iccom_utils.Device.{Tx}
use iccom_utils.Device.Queue.Ids.{IsId, get_next_package_id_lem}
use iccom_utils.Device.Queue.{
  get_next_package_id, update_last, add_to_last, enqueue_new_tx_data_package, enqueue_package,
  append_package, queue_step_forward, step_packages, renew,
}

-- Neighbours in the queue have different IDs, and `next` is not the ID of the last package.
abbrev pub IsLinked : List Package → ℕ → Type 0
IsLinked [] next = Unit
IsLinked (p ∷ []) next = IsRaw p × (get_id p ≢ next % 256)
IsLinked (p ∷ q ∷ ps) next = IsRaw p × (get_id p ≢ get_id q) × IsLinked (q ∷ ps) next

abbrev pub IsChained : Tx → Type 0
IsChained t = IsId t.next_tx_package_id × IsLinked t.packages t.next_tx_package_id

update_last-IsLinked :
    (f : Package → Package)
    → ((p : Package) → IsRaw p → Keeps p (f p))
    → (ps : List Package) (next : ℕ) → IsLinked ps next
    → IsLinked (update_last f ps) next
unfolding update_last
update_last-IsLinked f keep [] next h = tt
update_last-IsLinked f keep (p ∷ []) next (raw, apart) =
    let (same, raw') = keep p raw in (raw', λ e. apart (sym same ∙ e))
update_last-IsLinked f keep (p ∷ q ∷ []) next (raw, apart, (raw', apart')) =
    let (same, raw'') = keep q raw' in
    (raw, (λ e. apart (e ∙ same)), (raw'', λ e. apart' (sym same ∙ e)))
update_last-IsLinked f keep (p ∷ q ∷ r ∷ ps) next (raw, apart, h) =
    (raw, apart, update_last-IsLinked f keep (q ∷ r ∷ ps) next h)

add_to_last-IsLinked :
    (ps : List Package) (rest : List ℕ) (n channel next : ℕ)
    → IsLinked ps next
    → IsLinked (add_to_last ps rest n channel).1 next
unfolding add_to_last
add_to_last-IsLinked [] rest n channel next h = tt
add_to_last-IsLinked (p ∷ []) rest n channel next (raw, apart) =
    let (same, raw') = package_add_packet-Keeps p rest n channel raw in
    (raw', λ e. apart (sym same ∙ e))
add_to_last-IsLinked (p ∷ q ∷ []) rest n channel next (raw, apart, (raw', apart')) =
    let (same, raw'') = package_add_packet-Keeps q rest n channel raw' in
    (raw, (λ e. apart (e ∙ same)), (raw'', λ e. apart' (sym same ∙ e)))
add_to_last-IsLinked (p ∷ q ∷ r ∷ ps) rest n channel next (raw, apart, h) =
    (raw, apart, add_to_last-IsLinked (q ∷ r ∷ ps) rest n channel next h)

-- A package with the next ID at the end.
snoc-IsLinked :
    (ps : List Package) (r : Package) (next next' : ℕ)
    → IsLinked ps next
    → get_id r ≡ next % 256
    → IsRaw r
    → next % 256 ≢ next' % 256
    → IsLinked (ps ++ r ∷ []) next'
snoc-IsLinked [] r next next' h e raw apart = (raw, λ e'. apart (sym e ∙ e'))
snoc-IsLinked (p ∷ []) r next next' (raw, apart) e raw' apart' =
    (raw, (λ e'. apart (e' ∙ e)), (raw', λ e'. apart' (sym e ∙ e')))
snoc-IsLinked (p ∷ q ∷ ps) r next next' (raw, apart, h) e raw' apart' =
    (raw, apart, snoc-IsLinked (q ∷ ps) r next next' h e raw' apart')

next_apart :
    (t : Tx)
    → IsId t.next_tx_package_id
    → t.next_tx_package_id % 256 ≢ (get_next_package_id t).1.next_tx_package_id % 256
next_apart t positive e =
    let (positive', same, apart) = get_next_package_id_lem t positive in
    let (_, same', _) = get_next_package_id_lem (get_next_package_id t).1 positive' in
    apart (ap (λ n. n % 256) same ∙ e ∙ sym (ap (λ n. n % 256) same'))

append_package-IsChained :
    (p : Package) (t : Tx) → IsRaw p → IsChained t → IsChained (append_package p t)
unfolding append_package
append_package-IsChained p t raw (positive, linked) =
    let (positive', same, _) = get_next_package_id_lem t positive in
    let (e, raw') = set_id-Raw p (get_next_package_id t).0 raw in
    (
      positive',
      snoc-IsLinked t.packages (set_id p (get_next_package_id t).0) t.next_tx_package_id
          (get_next_package_id t).1.next_tx_package_id linked (e ∙ ap (λ n. n % 256) same) raw'
          (next_apart t positive),
    )

enqueue_package-IsChained :
    (o : Option Package) (t : Tx)
    → (o ≡ none) ⊎ ((p : Package) × (o ≡ some p) × IsRaw p)
    → IsChained t
    → IsChained (enqueue_package o t).1
unfolding enqueue_package
enqueue_package-IsChained o t (inl e) h = rw e h
enqueue_package-IsChained o t (inr (p, e, raw)) h = rw e (append_package-IsChained p t raw h)

pub finalized-IsChained :
    (t : Tx)
    → IsChained t
    → IsChained (record t { packages = update_last package_finalize t.packages })
finalized-IsChained t (positive, linked) = (
  positive,
  update_last-IsLinked package_finalize package_finalize-Keeps t.packages t.next_tx_package_id
      linked,
)

pub added-IsChained :
    (t : Tx) (rest : List ℕ) (n channel : ℕ)
    → IsChained t
    → IsChained (record t { packages = (add_to_last t.packages rest n channel).1 })
added-IsChained t rest n channel (positive, linked) =
    (positive, add_to_last-IsLinked t.packages rest n channel t.next_tx_package_id linked)

pub enqueue_new-IsChained :
    (t : Tx) (m : Memory) → IsChained t → IsChained (enqueue_new_tx_data_package t m).1
unfolding enqueue_new_tx_data_package
enqueue_new-IsChained t m h = elim (Bool-cases (kmalloc_struct m).0) [
  | inr refused ↦ rw refused (finalized-IsChained t h)
  | inl granted ↦ rw granted (
      enqueue_package-IsChained (package_init data_xfer_size (kmalloc_struct m).1).0
        (record t { packages = update_last package_finalize t.packages })
        (package_init-Raw (kmalloc_struct m).1) (finalized-IsChained t h))
]

renew-Raw : (id : ℕ) (p : Package) → IsRaw p → (get_id (renew id p) ≡ id % 256) × IsRaw (renew id p)
unfolding renew
renew-Raw id p raw =
    let (e, raw') = set_id-Raw p id raw in
    let (same, raw'') = package_make_empty-Keeps (set_id p id) raw' in (same ∙ e, raw'')

-- The ID of the package that is sent first.
abbrev pub first_id : List Package → Option ℕ
first_id [] = none
first_id (p ∷ ps) = some (get_id p)

step_packages-IsChained :
    (t : Tx) (p : Package) (ps : List Package)
    → t.packages ≡ p ∷ ps
    → IsId t.next_tx_package_id
    → IsLinked (p ∷ ps) t.next_tx_package_id
    → IsChained (step_packages t (p ∷ ps)).1
      × (first_id (step_packages t (p ∷ ps)).1.packages ≢ some (get_id p))
unfolding step_packages
step_packages-IsChained t p [] shape positive (raw, apart) =
    let (positive', same, _) = get_next_package_id_lem t positive in
    let (e, raw') = renew-Raw (get_next_package_id t).0 p raw in
    let e' = e ∙ ap (λ n. n % 256) same in
    (
      (positive', (raw', λ h. next_apart t positive (sym e' ∙ h))),
      λ h. apart (sym (some_inj h) ∙ e'),
    )
  where
    some_inj : {a b : ℕ} → some a ≡ some b → a ≡ b
    some_inj h = cc h
step_packages-IsChained t p (q ∷ ps) shape positive (raw, apart, h) =
    ((positive, h), λ e. apart (sym (some_inj e)))
  where
    some_inj : {a b : ℕ} → some a ≡ some b → a ≡ b
    some_inj h = cc h

-- A step of a queue that is not empty keeps this invariant of the IDs, and the package that is
-- sent next has another ID than the one that was delivered.
pub queue_step_forward-IsChained :
    (t : Tx) (p : Package) (ps : List Package)
    → t.packages ≡ p ∷ ps
    → IsChained t
    → IsChained (queue_step_forward t).1
      × (first_id (queue_step_forward t).1.packages ≢ some (get_id p))
unfolding queue_step_forward
queue_step_forward-IsChained t p ps shape (positive, linked) = simp shape (
    step_packages-IsChained t p ps shape positive
      (subst (λ qs. IsLinked qs t.next_tx_package_id) shape linked))
