-- ===== src/Device/Link/Sync.antt =====
-- What holds between two devices before every round: the receiver has the payloads of the sender
-- up to its first package, or with it.
use iccom_utils.Base.{
  ℕ, ◌≡◌, ◌≢◌, refl, ap, ap₂, sym, subst, ◌∙◌, ◌⊎◌, inl, inr, List, [], ◌∷◌, ◌++◌, append_assoc,
  append-nil, Bool, true, false, some, All, length, drop, take,
}
use iccom_utils.Package.{
  Package, get_id, verify_package_data, payload_start_offset, data_xfer_size, payload_size,
}
use iccom_utils.Package.Layout.{payload_size-pkg, get_id-pkg}
use iccom_utils.Package.Finalize.{Fits-padding, verify-finalized, padding, crc_of}
use iccom_utils.Storage.{Storage}
use iccom_utils.Device.{Private, package_ack_value, package_nack_value}
use iccom_utils.Device.Queue.Enqueue.{IsSealed, stream, payload_of}
use iccom_utils.Device.Queue.Post.{sealed_as}
use iccom_utils.Device.Queue.Chain.{IsChained}
use iccom_utils.Device.Callbacks.{count_xfer}
use iccom_utils.Device.Link.{received, Arrives, Fed, fed_more, fed_in_vain}
use iccom_utils.Device.Link.Callback.{SameReceived}
use iccom_utils.Device.Link.Retry.{Failed}
use iccom_utils.Device.Link.Stage.{Staged, broken, known, stored, in_vain}
use iccom_utils.Device.Link.Callback.{Waits}

abbrev pub flat : List (List ℕ) → List ℕ
flat [] = []
flat (x ∷ xs) = x ++ flat xs

flat-snoc : (xs : List (List ℕ)) (x : List ℕ) → flat (xs ++ x ∷ []) ≡ flat xs ++ x
flat-snoc [] x = append-nil x
flat-snoc (y ∷ xs) x = ap (λ t. y ++ t) (flat-snoc xs x) ∙ sym (append_assoc y (flat xs) x)

-- The first package was not taken yet, or it was, and the sender does not know.
abbrev pub Settled : ℕ → Package → List Package → List (List ℕ) → List ℕ → Type 0
Settled last p rest log sent =
    ((last ≢ get_id p) × (flat log ++ stream (p ∷ rest) ≡ sent))
    ⊎ ((last ≡ get_id p) × (flat log ++ stream rest ≡ sent))

-- Before a round.
pub record Synced (s₀ : Storage) (a b : Private) (sent : List ℕ) : Type 0 where
  pub first : Package
  pub rest : List Package
  pub shape : a.tx.packages ≡ first ∷ rest
  pub sealed : All IsSealed (first ∷ rest)
  pub chained : IsChained a.tx
  pub sends : a.xfer.data_tx ≡ first.bytes
  pub a_waits : Waits a
  pub b_waits : Waits b
  pub acks : b.ack_val ≡ package_ack_value
  pub nacks : b.nack_val ≡ package_nack_value
  pub log : List (List ℕ)
  pub fed : Fed s₀ log b.rx_messages
  pub settled : Settled b.last_rx_package_id first rest log sent

-- A sealed package that arrives.
pub sealed_received :
    {p : Package} (s : IsSealed p)
    → let rx = received p.bytes data_xfer_size in
      (verify_package_data rx ≡ some (length s.content))
      × (get_id rx ≡ get_id p)
      × (take (length s.content) (drop payload_start_offset p.bytes) ≡ payload_of p)
unfolding payload_start_offset
sealed_received {p} s =
    let c = s.content in
    let f = padding s.free in
    let k = crc_of s.id c f in
    let fits = Fits-padding s.id s.fits in
    let e = sealed_as s in
    (
      ap (λ (q : Package). verify_package_data (received q.bytes data_xfer_size)) e
          ∙ verify-finalized false s.id s.fits,
      ap (λ (q : Package). get_id (received q.bytes data_xfer_size)) e
          ∙ get_id-pkg false s.id fits
          ∙ sym (ap get_id e ∙ get_id-pkg true s.id fits),
      ap (λ n. take n (drop payload_start_offset p.bytes))
          (sym (
            ap (λ q. (payload_size q).0) e
            ∙ ap (λ (x : ℕ × Bool). x.0) (payload_size-pkg true s.id fits))),
    )

-- After the data stage: an ACK for the first package, or a NACK.
abbrev pub Half : Storage → Private → Package → List Package → List ℕ → Type 0
Half s₀ b p rest sent =
    (log : List (List ℕ)) × Fed s₀ log b.rx_messages
    × (((b.xfer.data_tx ≡ package_ack_value ∷ [])
          × (b.last_rx_package_id ≡ get_id p)
          × (flat log ++ stream rest ≡ sent))
        ⊎ ((b.xfer.data_tx ≡ package_nack_value ∷ [])
            × Settled b.last_rx_package_id p rest log sent))

module _ (s₀ : Storage) (b b₁ : Private) (p : Package) (rest : List Package) (sent rx_b : List ℕ)
    (log : List (List ℕ)) (sealed : IsSealed p) (fed : Fed s₀ log b.rx_messages)
    (settled : Settled b.last_rx_package_id p rest log sent) (acks : b.ack_val ≡ package_ack_value)
    (nacks : b.nack_val ≡ package_nack_value) where
  refused :
      b₁.last_rx_package_id ≡ b.last_rx_package_id
      → b₁.xfer.data_tx ≡ b.nack_val ∷ []
      → (b₁.xfer.data_tx ≡ package_nack_value ∷ []) × Settled b₁.last_rx_package_id p rest log sent
  refused last answer = (
    answer ∙ ap (λ (v : ℕ). v ∷ []) nacks,
    subst (λ (n : ℕ). Settled n p rest log sent) (sym last) settled,
  )

  -- An accepted package that arrived is the first one.
  taken_again : b.last_rx_package_id ≡ get_id p → flat log ++ stream rest ≡ sent
  taken_again e = elim settled [ inl (ne, _) ↦ absurd (ne e) | inr (_, flow) ↦ flow ]

  taken_new :
      b.last_rx_package_id ≢ get_id p → flat (log ++ payload_of p ∷ []) ++ stream rest ≡ sent
  taken_new ne = elim settled [
    | inl (_, flow) ↦
        ap (λ t. t ++ stream rest) (flat-snoc log (payload_of p))
        ∙ append_assoc (flat log) (payload_of p) (stream rest)
        ∙ flow
    | inr (e, _) ↦ absurd (ne e)
  ]

  -- The data stage of the receiver.
  data_done-Half :
      (n : ℕ)
      → Arrives p.bytes rx_b
      → Staged (count_xfer b n) (received rx_b data_xfer_size) b₁
      → Half s₀ b₁ p rest sent
  unfolding count_xfer
  data_done-Half n arrives (broken v same last answer) =
      (log, subst (Fed s₀ log) (sym same) fed, inr (refused last answer))
  data_done-Half n arrives (in_vain k d₁ x v e same last answer) = (
    log,
    fed_in_vain (count_xfer b n) d₁ (drop payload_start_offset rx_b) k x fed refl e (sym same),
    inr (refused last answer),
  )
  data_done-Half n (inr damaged) (known k v e same last answer) = absurd (cc (damaged, v))
  data_done-Half n (inl intact) (known k v e same last answer) =
      let id : get_id (received rx_b data_xfer_size) ≡ get_id p =
        ap (λ t. get_id (received t data_xfer_size)) intact ∙ (sealed_received sealed).1 in
      (
        log,
        subst (Fed s₀ log) (sym same) fed,
        inl (answer ∙ ap (λ (v : ℕ). v ∷ []) acks, last ∙ e ∙ id, taken_again (e ∙ id)),
      )
  data_done-Half n (inr damaged) (stored k d₁ v fresh e same last answer) = absurd (cc (damaged, v))
  data_done-Half n (inl intact) (stored k d₁ v fresh e same last answer) =
      let (good, id', payload) = sealed_received sealed in
      let id = ap (λ t. get_id (received t data_xfer_size)) intact ∙ id' in
      let size : k ≡ length sealed.content =
        some_inj
          (sym v ∙ ap (λ t. verify_package_data (received t data_xfer_size)) intact ∙ good) in
      let content : take k (drop payload_start_offset rx_b) ≡ payload_of p =
        ap₂ (λ j t. take j (drop payload_start_offset t)) size intact ∙ payload in
      (
        log ++ payload_of p ∷ [],
        subst (λ t. Fed s₀ (log ++ t ∷ []) b₁.rx_messages) content
            (fed_more (count_xfer b n) d₁ (drop payload_start_offset rx_b) k fed refl e (sym same)),
        inl (answer ∙ ap (λ (v : ℕ). v ∷ []) acks, last ∙ id, taken_new (λ h. fresh (id ∙ sym h))),
      )
    where
      some_inj : {x y : ℕ} → some x ≡ some y → x ≡ y
      some_inj h = cc h

  -- The data stage, or its failure.
  pub transferred-Half :
      Arrives p.bytes rx_b
      → Staged (count_xfer b data_xfer_size) (received rx_b data_xfer_size) b₁ ⊎ Failed b b₁
      → Half s₀ b₁ p rest sent
  transferred-Half arrives (inl staged) = data_done-Half data_xfer_size arrives staged
  transferred-Half arrives (inr (_, _, (same, last, _, _), answer)) =
      (log, subst (Fed s₀ log) (sym same) fed, inr (refused last answer))

-- A receiver whose answer has to be sent again answers by NACK, and keeps what it has.
pub retried-Half :
    (s₀ : Storage) (b₁ b₂ : Private) (p : Package) (rest : List Package) (sent : List ℕ)
    → SameReceived b₁ b₂
    → b₁.nack_val ≡ package_nack_value
    → (b₂.xfer.data_tx ≡ b₁.xfer.data_tx) ⊎ (b₂.xfer.data_tx ≡ b₁.nack_val ∷ [])
    → Half s₀ b₁ p rest sent
    → Half s₀ b₂ p rest sent
retried-Half s₀ b₁ b₂ p rest sent (same, last, _, _) nacks answer (log, fed, state) =
    (log, subst (Fed s₀ log) (sym same) fed, answered answer state)
  where
    nack : b₂.xfer.data_tx ≡ b₁.nack_val ∷ [] → b₂.xfer.data_tx ≡ package_nack_value ∷ []
    nack e = e ∙ ap (λ (v : ℕ). v ∷ []) nacks

    answered :
        (b₂.xfer.data_tx ≡ b₁.xfer.data_tx) ⊎ (b₂.xfer.data_tx ≡ b₁.nack_val ∷ [])
        → ((b₁.xfer.data_tx ≡ package_ack_value ∷ [])
            × (b₁.last_rx_package_id ≡ get_id p)
            × (flat log ++ stream rest ≡ sent))
          ⊎ ((b₁.xfer.data_tx ≡ package_nack_value ∷ [])
              × Settled b₁.last_rx_package_id p rest log sent)
        → ((b₂.xfer.data_tx ≡ package_ack_value ∷ [])
            × (b₂.last_rx_package_id ≡ get_id p)
            × (flat log ++ stream rest ≡ sent))
          ⊎ ((b₂.xfer.data_tx ≡ package_nack_value ∷ [])
              × Settled b₂.last_rx_package_id p rest log sent)
    answered (inl e) (inl (ack, id, flow)) = inl (e ∙ ack, last ∙ id, flow)
    answered (inl e) (inr (n, settled)) =
        inr (e ∙ n, subst (λ (k : ℕ). Settled k p rest log sent) (sym last) settled)
    answered (inr e) (inl (ack, id, flow)) = inr (nack e, inr (last ∙ id, flow))
    answered (inr e) (inr (n, settled)) =
        inr (nack e, subst (λ (k : ℕ). Settled k p rest log sent) (sym last) settled)
