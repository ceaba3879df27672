-- ===== src/Device/Queue/Step.antt =====
-- `__iccom_queue_step_forward`: the package that was delivered leaves the queue, and no other data.
use iccom_utils.Base.{ℕ, ◌%◌, ◌≡◌, refl, ap, ◌∙◌, sym, subst}
use iccom_utils.Base.{List, [], ◌∷◌, ◌++◌, some, Bool, true, All}
use iccom_utils.Package.{Package, set_id, package_make_empty, data_xfer_size}
use iccom_utils.Package.Layout.{Fits, pkg, set_id-pkg}
use iccom_utils.Package.Finalize.{
  package_finalize-pkg, package_make_empty-pkg, padding, crc_of, Fits-padding, Fits-empty,
}
use iccom_utils.Device.{Tx}
use iccom_utils.Device.Queue.{
  queue_step_forward, get_first_tx_package, first_package, have_multiple_packages, step_packages,
  renew, is_multiple, get_next_package_id,
}
use iccom_utils.Device.Queue.Enqueue.{IsSealed, stream, payload_of, payload_of-pkg}
use iccom_utils.Device.Queue.Post.{sealed_as}

renew-IsSealed :
    (j : ℕ) {p : Package} → IsSealed p → IsSealed (renew j p) × (payload_of (renew j p) ≡ [])
unfolding renew
renew-IsSealed j {p} s = (
  record {
    id = j % 256;
    content = [];
    free = s.content ++ padding s.free;
    crc = crc_of s.id s.content (padding s.free);
    fits = Fits-empty fits;
    made = renewed ∙ sym (package_finalize-pkg true (j % 256) (Fits-empty fits));
  },
  ap payload_of renewed ∙ payload_of-pkg true (j % 256) (Fits-padding (j % 256) (Fits-empty fits)),
)
  where
    fits : Fits data_xfer_size s.content (padding s.free) (crc_of s.id s.content (padding s.free))
    fits = Fits-padding s.id s.fits

    free' : List ℕ
    free' = padding (s.content ++ padding s.free)

    renewed :
        package_make_empty (set_id p j)
        ≡ pkg data_xfer_size true (j % 256) [] free' (crc_of (j % 256) [] free')
    renewed =
        ap (λ x. package_make_empty (set_id x j)) (sealed_as s)
        ∙ ap package_make_empty (set_id-pkg true s.id fits j)
        ∙ package_make_empty-pkg true (j % 256) fits

-- What is left of a queue `p ∷ ps` after a step.
abbrev pub Stepped : Package → List Package → Bool × Tx → Type 0
Stepped p ps r =
    ((q : Package) × (qs : List Package) × (r.1.packages ≡ q ∷ qs))
    × All IsSealed r.1.packages
    × (stream r.1.packages ≡ stream ps)
    × (r.0 ≡ is_multiple (p ∷ ps))

step_packages_lem :
    (t : Tx) (p : Package) (ps : List Package)
    → All IsSealed (p ∷ ps)
    → Stepped p ps (step_packages t (p ∷ ps))
unfolding step_packages is_multiple
step_packages_lem t p [] (s, _) =
    let (s', e) = renew-IsSealed (get_next_package_id t).0 s in
    (
      (renew (get_next_package_id t).0 p, [], refl),
      (s', tt),
      ap (λ (bytes : List ℕ). bytes ++ []) e,
      refl,
    )
step_packages_lem t p (q ∷ qs) (s, sealed) = ((q, qs, refl), sealed, refl, refl)

-- A step leaves a queue that is not empty, of sealed packages, whose stream of payloads is what
-- stood behind the first package.
pub queue_step_forward_lem :
    (t : Tx) (p : Package) (ps : List Package)
    → t.packages ≡ p ∷ ps
    → All IsSealed (p ∷ ps)
    → Stepped p ps (queue_step_forward t)
unfolding queue_step_forward
queue_step_forward_lem t p ps e sealed =
    subst (λ qs. Stepped p ps (step_packages t qs)) (sym e) (step_packages_lem t p ps sealed)

pub first_tx_package-cons :
    (t : Tx) (q : Package) (qs : List Package)
    → t.packages ≡ q ∷ qs
    → get_first_tx_package t ≡ some q
unfolding get_first_tx_package first_package
first_tx_package-cons t q qs e = ap first_package e

-- Whether more than one package waits.
pub have_multiple-cons :
    (t : Tx) (p : Package) (ps : List Package)
    → t.packages ≡ p ∷ ps
    → have_multiple_packages t ≡ is_multiple (p ∷ ps)
unfolding have_multiple_packages
have_multiple-cons t p ps e = ap is_multiple e
