-- ===== src/Device/Link/Progress.antt =====
-- Rounds without damage deliver.
use iccom_utils.Base.{
  ℕ, ◌≡◌, refl, ap, sym, subst, ◌∙◌, ◌⊎◌, inl, inr, List, [], ◌∷◌, true, some, drop,
}
use iccom_utils.Kernel.{err, Errno}
use iccom_utils.Package.{
  Package, verify_package_data, payload_start_offset, data_xfer_size, ack_xfer_size,
}
use iccom_utils.Storage.{Storage}
use iccom_utils.Device.{Private, Statistics, Tx, package_ack_value}
use iccom_utils.Device.Queue.Enqueue.{IsSealed, stream}
use iccom_utils.Device.Queue.Chain.{IsChained}
use iccom_utils.Device.Receive.{process_package_payload}
use iccom_utils.Device.Callbacks.{verify_ack, count_xfer}
use iccom_utils.Device.Link.{
  received, Round, round, done, no_retry, Run, exchange, Post, Undamaged, undamaged,
}
use iccom_utils.Device.Link.Stage.{Staged, broken, known, stored, in_vain}
use iccom_utils.Device.Link.Callback.{data_done, data_ends, ack_ends, ack_done-Queue}
use iccom_utils.Device.Link.Sync.{Synced, sealed_received}
use iccom_utils.Device.Link.Runs.{IsReady, IsReady-Synced, run-Synced}

-- The payload of a verified package does not go into the storage of the device.
abbrev pub Unstored : Private → List ℕ → Type 0
Unstored b bytes =
    (counted : Statistics) × (d' : Private) × (n : ℕ) × (e : Errno) × (verify_package_data
        (received bytes data_xfer_size)
      ≡ some n)
    × (process_package_payload (record b { statistics = counted }) (drop payload_start_offset bytes)
          n
        ≡ some (err e, d'))

-- The answer to a sealed package that arrives.
answer_of :
    (b b₁ : Private) (p : Package) (n : ℕ)
    → IsSealed p
    → b.ack_val ≡ package_ack_value
    → Staged (count_xfer b n) (received p.bytes data_xfer_size) b₁
    → (b₁.xfer.data_tx ≡ package_ack_value ∷ []) ⊎ Unstored b p.bytes
unfolding count_xfer
answer_of b b₁ p n sealed acks (broken v same last answer) =
    absurd (cc (v, (sealed_received sealed).0))
answer_of b b₁ p n sealed acks (known k v e same last answer) =
    inl (answer ∙ ap (λ (v : ℕ). v ∷ []) acks)
answer_of b b₁ p n sealed acks (stored k d v fresh e same last answer) =
    inl (answer ∙ ap (λ (v : ℕ). v ∷ []) acks)
answer_of b b₁ p n sealed acks (in_vain k d x v e same last answer) =
    inr ((count_xfer b n).statistics, d, k, x, v, e)

ack_true :
    (ack : List ℕ) → ack ≡ package_ack_value ∷ [] → verify_ack (received ack ack_xfer_size) ≡ true
unfolding verify_ack
ack_true ack e = rw e refl

-- Such a round is one of those that a run may have.
pub Undamaged-Round : {a b a' b' : Private} → Undamaged a b a' b' → Round a b a' b'
Undamaged-Round {a} {b} (undamaged a₁ b₁ start_a start_b e₁ e₂ e₃ e₄) =
    round a₁ b₁ a₁ b₁ b.xfer.data_tx a.xfer.data_tx b₁.xfer.data_tx a₁.xfer.data_tx start_a start_b
      (inl refl) (done e₁) (done e₂) no_retry no_retry (inl refl) e₃ e₄

-- A round without damage between two devices that are in step.
pub Round-delivers :
    {s₀ : Storage} {a b : Private} {sent : List ℕ}
    → Synced s₀ a b sent
    → (a' : Private) × (b' : Private) × Undamaged a b a' b'
      × ((stream a'.tx.packages ≡ stream (drop 1 a.tx.packages)) ⊎ Unstored b a.xfer.data_tx)
Round-delivers {a = a} {b = b} s =
    let (a₁, e₁) = data_ends a b.xfer.data_tx data_xfer_size s.a_waits in
    let (b₁, e₂) = data_ends b a.xfer.data_tx data_xfer_size s.b_waits in
    let (tx, asks, _, _, _) = data_done a a₁ b.xfer.data_tx data_xfer_size true s.a_waits e₁ in
    let (_, asks', _, _, staged) = data_done b b₁ a.xfer.data_tx data_xfer_size true s.b_waits e₂ in
    let (a', start, e₃) = ack_ends a₁ b₁.xfer.data_tx asks in
    let (b', start', e₄) = ack_ends b₁ a₁.xfer.data_tx asks' in
    let (_, _, _, moved) =
      ack_done-Queue a₁ a' b₁.xfer.data_tx start s.first s.rest asks e₃
        (ap (λ (x : Tx). x.packages) tx ∙ s.shape) s.sealed (subst IsChained (sym tx) s.chained) in
    (
      a',
      b',
      undamaged a₁ b₁ start start' e₁ e₂ e₃ e₄,
      elim (answer_of b b₁ s.first data_xfer_size s.sealed.0 s.acks (
          subst
            (λ (x : List ℕ). Staged (count_xfer b data_xfer_size) (received x data_xfer_size) b₁)
            s.sends staged)) [
              | inr vain ↦ inr (subst (Unstored b) (sym s.sends) vain)
              | inl answer ↦ elim moved [
                | inl (_, flow, _) ↦ inl (flow ∙ ap (λ ps. stream (drop 1 ps)) (sym s.shape))
                | inr (bad, _) ↦ absurd (cc (bad, ack_true b₁.xfer.data_tx answer))
              ]
            ],
    )

-- From two devices that are ready, after every such sequence of posts, reading and rounds, a round
-- in which every transfer of both directions arrives as it was sent is possible from the state
-- that the two devices are in, and continues the sequence. After it the stream of payloads to send
-- has lost the payload of the first package, unless the second device cannot take this payload
-- into its storage.
pub run-delivers :
    (a₀ b₀ a b : Private) (posts : List Post)
    → IsReady a₀ b₀
    → Run a₀ b₀ a b posts
    → (a' : Private) × (b' : Private) × Undamaged a b a' b'
      × Run a₀ b₀ a' b' posts
      × ((stream a'.tx.packages ≡ stream (drop 1 a.tx.packages)) ⊎ Unstored b a.xfer.data_tx)
run-delivers a₀ b₀ a b posts ready run =
    let (_, _, s) = run-Synced (IsReady-Synced ready) run in
    let (a', b', r, delivered) = Round-delivers s in
    (a', b', r, exchange run (Undamaged-Round r), delivered)
