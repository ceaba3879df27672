-- ===== src/Device/Queue/First.antt =====
-- The queue of a new device: one sealed, empty package with the first ID.
use iccom_utils.Base.{
  ℕ, ◌%◌, ◌≡◌, refl, ap, sym, ◌∙◌, subst, ◌⊎◌, inl, inr, arith, List, [], ◌∷◌, Bool-cases, true,
  length,
}
use iccom_utils.Kernel.{Status, ok, err, Errno, Memory, kmalloc_struct}
use iccom_utils.Package.{Package, get_id, package_init, package_make_empty, data_xfer_size}
use iccom_utils.Package.Layout.{pkg, get_id-pkg}
use iccom_utils.Package.Fresh.{fresh_free, fresh_crc, Fits-fresh, set_id-fresh, package_init-cases}
use iccom_utils.Package.Identity.{package_make_empty-Keeps}
use iccom_utils.Package.Finalize.{package_finalize-pkg, package_make_empty-pkg}
use iccom_utils.Device.{Tx, initial_package_id}
use iccom_utils.Device.Queue.{
  enqueue_empty_tx_data_package, enqueue_new_tx_data_package, enqueue_package, append_package,
  emptied, get_next_package_id, update_last,
}
use iccom_utils.Device.Queue.Enqueue.{IsSealed, enqueue_new-nil}
use iccom_utils.Device.Queue.Chain.{IsChained}

abbrev pub no_packages : Tx
no_packages = record {
  packages = [];
  next_tx_package_id = initial_package_id;
  packages_in_tx_queue = 0;
}

-- The first package over some fresh memory.
abbrev first_package : List ℕ → Package
first_package fresh =
    package_make_empty (pkg data_xfer_size true 1 [] (fresh_free fresh) (fresh_crc fresh))

abbrev first_tx : List ℕ → Tx
first_tx fresh = record {
  packages = first_package fresh ∷ [];
  next_tx_package_id = 2;
  packages_in_tx_queue = 1;
}

abbrev fresh_tx : List ℕ → Tx
fresh_tx fresh = record {
  packages = pkg data_xfer_size true 1 [] (fresh_free fresh) (fresh_crc fresh) ∷ [];
  next_tx_package_id = 2;
  packages_in_tx_queue = 1;
}

enqueue_new-cases :
    (m : Memory)
    → let r = enqueue_new_tx_data_package no_packages m in
      ((fresh : List ℕ) × (m' : Memory) × (length fresh ≡ 256) × (r ≡ (ok, fresh_tx fresh, m')))
      ⊎ ((t : Tx) × (m' : Memory) × (r ≡ (err Errno.enomem, t, m')))
unfolding enqueue_new_tx_data_package enqueue_package append_package get_next_package_id update_last
enqueue_new-cases m = elim (Bool-cases (kmalloc_struct m).0) [
  | inr refusal ↦ rw refusal (inr (_, _, refl))
  | inl grant ↦ rw grant (elim (package_init-cases (kmalloc_struct m).1) [
    | inl failed ↦ rw failed (inr (_, _, refl))
    | inr (fresh, len, made) ↦ rw made (
        inl (
          fresh,
          (package_init data_xfer_size (kmalloc_struct m).1).1,
          len,
          rw (set_id-fresh fresh 1 len) refl,
        ))
  ])
]

enqueue_empty-cases :
    (m : Memory)
    → let r = enqueue_empty_tx_data_package no_packages m in
      ((fresh : List ℕ) × (m' : Memory) × (length fresh ≡ 256) × (r ≡ (ok, first_tx fresh, m')))
      ⊎ ((t : Tx) × (m' : Memory) × (r ≡ (err Errno.enomem, t, m')))
unfolding enqueue_empty_tx_data_package emptied update_last
enqueue_empty-cases m = elim (enqueue_new-cases m) [
  | inl (fresh, m', len, e) ↦ inl (fresh, m', len, ap emptied e)
  | inr (t, m', e) ↦ inr (t, m', ap emptied e)
]

-- What holds of it.
abbrev pub IsNew : Tx → Type 0
IsNew t = (p : Package) × (t.packages ≡ p ∷ []) × IsSealed p × (get_id p ≡ 1) × IsChained t

first_tx-IsNew : (fresh : List ℕ) → length fresh ≡ 256 → IsNew (first_tx fresh)
first_tx-IsNew fresh len =
    let fits = Fits-fresh fresh len in
    let (same, raw) =
      package_make_empty-Keeps (pkg data_xfer_size true 1 [] (fresh_free fresh) (fresh_crc fresh))
        (refl, omega arith) in
    let id = same ∙ get_id-pkg true 1 fits in
    (
      first_package fresh,
      refl,
      record {
        id = 1;
        content = [];
        free = fresh_free fresh;
        crc = fresh_crc fresh;
        fits = fits;
        made = package_make_empty-pkg true 1 fits ∙ sym (package_finalize-pkg true 1 fits);
      },
      id,
      ((omega arith, omega arith), (raw, λ e. two (sym id ∙ e))),
    )
  where
    two : 1 ≡ 2 % 256 → ⊥
    two e = omega arith

pub enqueue_empty-IsNew :
    (m : Memory)
    → let r = enqueue_empty_tx_data_package no_packages m in
      IsNew r.1 ⊎ ((t : Tx) × (m' : Memory) × (r ≡ (err Errno.enomem, t, m')))
enqueue_empty-IsNew m = elim (enqueue_empty-cases m) [
  | inl (fresh, _, len, e) ↦ inl (subst IsNew (sym (ap tx_of e)) (first_tx-IsNew fresh len))
  | inr failed ↦ inr failed
]
  where
    tx_of : Status × Tx × Memory → Tx
    tx_of r = r.1

emptied_granted :
    (r : Status × Tx × Memory) → r.0 ≡ ok → ((emptied r).0 ≡ ok) × ((emptied r).2 ≡ r.2)
unfolding emptied
emptied_granted (ok, t, m) e = (refl, refl)
emptied_granted (err x, t, m) e = (e, refl)

-- With memory for all there is no refusal.
pub enqueue_empty-nil :
    (t : Tx)
    → ((enqueue_empty_tx_data_package t []).0 ≡ ok) × ((enqueue_empty_tx_data_package t []).2 ≡ [])
unfolding enqueue_empty_tx_data_package
enqueue_empty-nil t =
    let (granted, rest) = enqueue_new-nil t in
    let (e, same) = emptied_granted (enqueue_new_tx_data_package t []) granted in (e, same ∙ rest)
