-- ===== src/Device/Callbacks/Ack.antt =====
-- The ack stage of the sender: an ACK takes the delivered package off the queue, anything else has
-- it sent once more.
use iccom_utils.Base.{ℕ, ◌≡◌, refl, ap, ◌∙◌, List, ◌∷◌, true, Option, some, All}
use iccom_utils.Base.{if◌then◌else◌, Bool-cases, inl, inr, sym, subst}
use iccom_utils.Package.{Package}
use iccom_utils.Device.{Private}
use iccom_utils.Device.Queue.{queue_step_forward, have_multiple_packages, get_first_tx_package}
use iccom_utils.Device.Queue.Enqueue.{IsSealed, stream}
use iccom_utils.Device.Queue.Step.{
  queue_step_forward_lem, first_tx_package-cons, have_multiple-cons,
}
use iccom_utils.Device.Callbacks.{ack_stage, verify_ack, fillup_next_data_xfer, xfer_of, stepped}

-- The next xfer is the first package of the queue.
abbrev pub SendsFirst : Private → Type 0
SendsFirst d =
    (q : Package) × (qs : List Package) × (d.tx.packages ≡ q ∷ qs)
    × (d.xfer.data_tx ≡ q.bytes)
    × (d.xfer.size_bytes ≡ q.size)

fillup_next_data_xfer_lem :
    (d : Private) (q : Package) (qs : List Package)
    → d.tx.packages ≡ q ∷ qs
    → SendsFirst (fillup_next_data_xfer d)
unfolding fillup_next_data_xfer xfer_of
fillup_next_data_xfer_lem d q qs e = (q, qs, e, ap data_of first, ap size_of first)
  where
    data_of : Option Package → List ℕ
    data_of p = (xfer_of d.xfer p).data_tx

    size_of : Option Package → ℕ
    size_of p = (xfer_of d.xfer p).size_bytes

    first : get_first_tx_package d.tx ≡ some q
    first = first_tx_package-cons d.tx q qs e

-- For a queue of sealed packages that is not empty, the ack stage leaves such a queue, and its
-- first package is sent next. On an ACK the stream of payloads to send loses exactly the payload
-- of the first package, and the sending goes on at once exactly if another package waited. On any
-- other answer the stream of payloads stays, and the sending starts at once.
pub ack_stage_lem :
    (d : Private) (rx p : Package) (ps : List Package)
    → d.tx.packages ≡ p ∷ ps
    → All IsSealed (p ∷ ps)
    → let (d', start) = ack_stage d rx in
      SendsFirst d'
      × All IsSealed d'.tx.packages
      × (stream d'.tx.packages ≡ (if verify_ack rx then stream ps else stream (p ∷ ps)))
      × (start ≡ (if verify_ack rx then have_multiple_packages d.tx else true))
unfolding ack_stage fillup_next_data_xfer
ack_stage_lem d rx p ps e sealed = elim (Bool-cases (verify_ack rx)) [
  | inl ack ↦
      let ((q, qs, e'), sealed', same, more) = queue_step_forward_lem d.tx p ps e sealed in
      rw ack (
        fillup_next_data_xfer_lem (stepped d (queue_step_forward d.tx).1) q qs e',
        sealed',
        same,
        more ∙ sym (have_multiple-cons d.tx p ps e),
      )
  | inr other ↦ rw other (
    fillup_next_data_xfer_lem d p ps e,
    subst (λ qs. All IsSealed qs) (sym e) sealed,
    ap stream e,
    refl,
  )
]
