-- ===== src/Device/Link/Delivery.antt =====
-- Exactly-once delivery over a lossy wire.
use iccom_utils.Base.{
  ℕ, ◌≡◌, ◌≢◌, refl, ap, sym, subst, ◌∙◌, ◌⊎◌, inl, inr, List, [], ◌∷◌, ◌++◌, true, false, some,
  All,
}
use iccom_utils.Package.{Package, get_id, ack_xfer_size}
use iccom_utils.Storage.{Storage}
use iccom_utils.Device.{Private, Tx, package_nack_value}
use iccom_utils.Device.Queue.Enqueue.{IsSealed, stream}
use iccom_utils.Device.Queue.Chain.{IsChained, first_id}
use iccom_utils.Device.Callbacks.{verify_ack}
use iccom_utils.Device.Link.{received, Arrives, Answers, Round, round, Fed}
use iccom_utils.Device.Link.Retry.{transferred_lem, retried_lem}
use iccom_utils.Device.Link.Callback.{ack_done, ack_done-Queue}
use iccom_utils.Device.Link.Sync.{Synced, Settled, Half, transferred-Half, retried-Half, flat}

-- An answer that is taken for an ACK was one.
acked :
    (v : ℕ) (sent rx : List ℕ)
    → sent ≡ v ∷ []
    → Answers sent rx
    → verify_ack (received rx ack_xfer_size) ≡ true
    → v ≢ package_nack_value
unfolding verify_ack
acked v sent rx e (inl intact) good bad = cc (good, intact, e, bad, computed)
  where
    computed : verify_ack (received (package_nack_value ∷ []) ack_xfer_size) ≡ false
    computed = refl
acked v sent rx e (inr damaged) good bad = cc (good, damaged)

same_packages :
    (n : ℕ) (p q : Package) (ps qs : List Package) (log : List (List ℕ)) (sent : List ℕ)
    → q ∷ qs ≡ p ∷ ps
    → Settled n p ps log sent
    → Settled n q qs log sent
same_packages n p q ps qs log sent e h =
    let first : p ≡ q = cc e in
    let rest : ps ≡ qs = cc e in
    subst (λ (x : Package). Settled n x qs log sent) first
      (subst (λ (xs : List Package). Settled n p xs log sent) rest h)

-- The two ends after the ack stage.
module _ (s₀ : Storage) (b₁ a' : Private) (p q : Package) (rest qs : List Package) (t : Tx)
    (sent ack : List ℕ) (shape : t.packages ≡ p ∷ rest) (front : a'.tx.packages ≡ q ∷ qs)
    (answers : Answers b₁.xfer.data_tx ack) where
  kept :
      (log : List (List ℕ))
      → a'.tx ≡ t
      → Settled b₁.last_rx_package_id p rest log sent
      → Settled b₁.last_rx_package_id q qs log sent
  kept log same =
      same_packages b₁.last_rx_package_id p q rest qs log sent
        (sym front ∙ ap (λ (x : Tx). x.packages) same ∙ shape)

  next-Settled :
      (h : Half s₀ b₁ p rest sent)
      → ((verify_ack (received ack ack_xfer_size) ≡ true)
          × (stream a'.tx.packages ≡ stream rest)
          × (first_id a'.tx.packages ≢ some (get_id p)))
        ⊎ ((verify_ack (received ack ack_xfer_size) ≡ false) × (a'.tx ≡ t))
      → Settled b₁.last_rx_package_id q qs h.0 sent
  next-Settled (log, fed, inl (answer, last, flow)) (inl (good, moved, apart)) = inl (
    (λ h. apart (ap first_id front ∙ ap some (sym h ∙ last))),
    ap (λ t. flat log ++ t) (sym (ap stream front) ∙ moved) ∙ flow,
  )
  next-Settled (log, fed, inl (answer, last, flow)) (inr (bad, same)) =
      kept log same (inr (last, flow))
  next-Settled (log, fed, inr (answer, settled)) (inl (good, moved, apart)) =
      absurd (acked package_nack_value b₁.xfer.data_tx ack answer answers good refl)
  next-Settled (log, fed, inr (answer, settled)) (inr (bad, same)) = kept log same settled

-- A round keeps the two devices in step.
pub Round-Synced :
    {s₀ : Storage} {a b a' b' : Private} {sent : List ℕ}
    → Synced s₀ a b sent
    → Round a b a' b'
    → Synced s₀ a' b' sent
Round-Synced {s₀} {a} {b} {a'} {b'} {sent} s
      (round a₁ b₁ a₂ b₂ rx_a rx_b ack_a ack_b start_a start_b arrives e₁ e₂ r₁ r₂ answers e₃ e₄) =
    let (tx, asks, _, _, _) = transferred_lem a a₁ rx_a s.a_waits e₁ in
    let (_, asks', ack, nack, staged) = transferred_lem b b₁ rx_b s.b_waits e₂ in
    let (tx', again, _, _) = retried_lem a₁ a₂ asks r₁ in
    let (_, again', kept_b, answer) = retried_lem b₁ b₂ asks' r₂ in
    let shape : a₂.tx.packages ≡ s.first ∷ s.rest =
      ap (λ (x : Tx). x.packages) (tx' ∙ tx) ∙ s.shape in
    let (_, waits) = ack_done a₂ a' ack_a start_a again e₃ in
    let ((same, last, ack', nack'), waits') = ack_done b₂ b' ack_b start_b again' e₄ in
    let ((q, qs, front, sends, _), sealed, chained, moved) =
      ack_done-Queue a₂ a' ack_a start_a s.first s.rest again e₃ shape s.sealed
        (subst IsChained (sym (tx' ∙ tx)) s.chained) in
    let half : Half s₀ b₂ s.first s.rest sent =
      retried-Half s₀ b₁ b₂ s.first s.rest sent kept_b (nack ∙ s.nacks) answer (
        transferred-Half s₀ b b₁ s.first s.rest sent rx_b s.log s.sealed.0 s.fed s.settled s.acks
          s.nacks (subst (λ (x : List ℕ). Arrives x rx_b) s.sends arrives) staged) in
    record {
      first = q;
      rest = qs;
      shape = front;
      sealed = subst (All IsSealed) front sealed;
      chained = chained;
      sends = sends;
      a_waits = waits;
      b_waits = waits';
      acks = ack' ∙ kept_b.2 ∙ ack ∙ s.acks;
      nacks = nack' ∙ kept_b.3 ∙ nack ∙ s.nacks;
      log = half.0;
      fed = subst (Fed s₀ half.0) (sym same) half.1;
      settled =
          subst (λ (n : ℕ). Settled n q qs half.0 sent) (sym last)
            (next-Settled s₀ b₂ a' s.first q s.rest qs a₂.tx sent ack_a shape front answers half
              moved);
    }
