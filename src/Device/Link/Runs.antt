-- ===== src/Device/Link/Runs.antt =====
-- Every run of two devices.
use iccom_utils.Base.{
  ℕ, ◌≡◌, ◌≢◌, ◌<◌, ap, sym, subst, ◌∙◌, ◌⊎◌, inl, inr, List, [], ◌∷◌, ◌++◌, append_assoc,
  append-nil, true, Option, some, All, length, drop,
}
use iccom_utils.Kernel.{Status, err, Errno}
use iccom_utils.Package.{Package, get_id}
use iccom_utils.Packet.Message.{Carries}
use iccom_utils.Storage.{Storage}
use iccom_utils.Device.{Private, package_ack_value, package_nack_value}
use iccom_utils.Device.Queue.Enqueue.{IsSealed, stream, payload_of}
use iccom_utils.Device.Queue.Chain.{IsChained}
use iccom_utils.Device.Api.{Handle, device, Xchange, post_message, channel_ok}
use iccom_utils.Device.Api.Post.{post_message_lem, with_tx}
use iccom_utils.Device.Api.Chain.{AlwaysChained, post_message-Always}
use iccom_utils.Device.Link.{
  Run, begin, exchange, take_a, take_b, post, Post, CarriesAll, no_posts, one_more, Fed,
  fed_nothing,
}
use iccom_utils.Device.Link.Callback.{Waits}
use iccom_utils.Device.Link.Sync.{Synced, Settled, flat}
use iccom_utils.Device.Link.Take.{take_a-Synced, take_b-Synced}
use iccom_utils.Device.Link.Delivery.{Round-Synced}

append_cancel : (xs ys zs : List ℕ) → xs ++ ys ≡ xs ++ zs → ys ≡ zs
append_cancel [] ys zs e = e
append_cancel (x ∷ xs) ys zs e = append_cancel xs ys zs (cc e)

-- What is still to be sent grows by the message.
grown-Settled :
    (n : ℕ) (p : Package) (rest behind : List Package) (log : List (List ℕ)) (sent bytes : List ℕ)
    → stream (p ∷ behind) ≡ stream (p ∷ rest) ++ bytes
    → Settled n p rest log sent
    → Settled n p behind log (sent ++ bytes)
grown-Settled n p rest behind log sent bytes grown (inl (ne, flow)) = inl (
  ne,
  ap (λ t. flat log ++ t) grown
      ∙ sym (append_assoc (flat log) (stream (p ∷ rest)) bytes)
      ∙ ap (λ t. t ++ bytes) flow,
)
grown-Settled n p rest behind log sent bytes grown (inr (e, flow)) =
    let tail =
      append_cancel (payload_of p) (stream behind) (stream rest ++ bytes)
        (grown ∙ append_assoc (payload_of p) (stream rest) bytes) in
    inr (
      e,
      ap (λ t. flat log ++ t) tail
          ∙ sym (append_assoc (flat log) (stream rest) bytes)
          ∙ ap (λ t. t ++ bytes) flow,
    )

device_inj :
    (s s' : Status) (d d' : Private)
    → ◌≡◌ {A = Option (Status × Handle)} (some (s, device d)) (some (s', device d'))
    → (s ≡ s') × (d ≡ d')
device_inj s s' d d' h = (cc h, cc h)

-- A post that does not fail.
post-Synced :
    {s₀ : Storage} {a a' b : Private} {sent : List ℕ} (p : Post) (answer : Xchange)
    (status : Status)
    → Synced s₀ a b sent
    → 0 < length p.message
    → channel_ok p.channel ≡ true
    → post_message (device a) (some p.message) (length p.message) p.channel answer
      ≡ some (status, device a')
    → status ≢ err Errno.enomem
    → (bytes : List ℕ) × Carries p.channel p.message bytes × Synced s₀ a' b (sent ++ bytes)
post-Synced {s₀} {a} {a'} {b} {sent} p answer status s pos valid e good =
    elim (post_message_lem a s.first s.rest p.message p.channel answer s.shape s.sealed pos valid
      s.a_waits.0) [
        | inr (t, m, e', _) ↦
            absurd (good (device_inj status (err Errno.enomem) a' (with_tx a t m) (sym e ∙ e')).0)
        | inl (t, m, behind, bytes, e', shape, sealed, carries, grown) ↦
            let same : with_tx a t m ≡ a' =
              (device_inj _ status (with_tx a t m) a' (sym e' ∙ e)).1 in
            let chained : IsChained a'.tx =
              subst AlwaysChained e
                (post_message-Always a p.message (length p.message) p.channel answer s.chained) in
            let shape' : a'.tx.packages ≡ s.first ∷ behind =
              ap (λ (x : Private). x.tx.packages) (sym same) ∙ shape in
            (
              bytes,
              carries,
              record {
                first = s.first;
                rest = behind;
                shape = shape';
                sealed = subst (All IsSealed) shape sealed;
                chained = chained;
                sends = ap (λ (x : Private). x.xfer.data_tx) (sym same) ∙ s.sends;
                a_waits = subst Waits same s.a_waits;
                b_waits = s.b_waits;
                acks = s.acks;
                nacks = s.nacks;
                log = s.log;
                fed = s.fed;
                settled =
                    grown-Settled b.last_rx_package_id s.first s.rest behind s.log sent bytes
                      (sym (ap stream shape) ∙ grown) s.settled;
              },
            )
      ]

pub run-Synced :
    {s₀ : Storage} {a₀ b₀ a b : Private} {posts : List Post} {sent : List ℕ}
    → Synced s₀ a₀ b₀ sent
    → Run a₀ b₀ a b posts
    → (bytes : List ℕ) × CarriesAll posts bytes × Synced s₀ a b (sent ++ bytes)
run-Synced {s₀} {a₀} {b₀} {sent = sent} s begin =
    ([], no_posts, subst (Synced s₀ a₀ b₀) (sym (append-nil sent)) s)
run-Synced s (exchange run r) =
    let (bytes, all, s') = run-Synced s run in (bytes, all, Round-Synced s' r)
run-Synced s (take_a run t) =
    let (bytes, all, s') = run-Synced s run in (bytes, all, take_a-Synced t s')
run-Synced s (take_b run t) =
    let (bytes, all, s') = run-Synced s run in (bytes, all, take_b-Synced t s')
run-Synced {s₀} {a = a} {b = b} {sent = sent} s (post p answer status run pos valid e good) =
    let (bytes, all, s') = run-Synced s run in
    let (more, carries, s'') = post-Synced p answer status s' pos valid e good in
    (
      bytes ++ more,
      one_more p more all carries,
      subst (Synced s₀ a b) (append_assoc sent bytes more) s'',
    )

-- Two devices before their first round: the receiver takes no package of the queue for a known one.
pub record IsReady (a b : Private) : Type 0 where
  pub first : Package
  pub rest : List Package
  pub shape : a.tx.packages ≡ first ∷ rest
  pub sealed : All IsSealed (first ∷ rest)
  pub chained : IsChained a.tx
  pub sends : a.xfer.data_tx ≡ first.bytes
  pub a_waits : Waits a
  pub b_waits : Waits b
  pub acks : b.ack_val ≡ package_ack_value
  pub nacks : b.nack_val ≡ package_nack_value
  pub fresh : b.last_rx_package_id ≢ get_id first

pub IsReady-Synced : {a b : Private} → IsReady a b → Synced b.rx_messages a b (stream a.tx.packages)
IsReady-Synced r = record {
  first = r.first;
  rest = r.rest;
  shape = r.shape;
  sealed = r.sealed;
  chained = r.chained;
  sends = r.sends;
  a_waits = r.a_waits;
  b_waits = r.b_waits;
  acks = r.acks;
  nacks = r.nacks;
  log = [];
  fed = fed_nothing;
  settled = inl (r.fresh, sym (ap stream r.shape));
}

-- Two open devices are ready: the queue of the first one has at least one package, all are sealed,
-- neighbouring IDs differ, the first package is set up for sending, and the last ID of the second
-- device is not that of this package. Then for every sequence of posted messages, of reading at
-- both ends, and of rounds in which transfers fail and packages and answers arrive or are damaged
-- in a way that the receiver finds, the payloads that the second device took into its storage with
-- success, together with those still in the queue, or with those behind its first package, are
-- exactly the bytes queued at the start and then the messages posted on the way in packets: each
-- once, and in order.
pub run-Fed :
    (a₀ b₀ a b : Private) (posts : List Post)
    → IsReady a₀ b₀
    → Run a₀ b₀ a b posts
    → (bytes : List ℕ) × (log : List (List ℕ)) × CarriesAll posts bytes
      × Fed b₀.rx_messages log b.rx_messages
      × ((flat log ++ stream a.tx.packages ≡ stream a₀.tx.packages ++ bytes)
          ⊎ (flat log ++ stream (drop 1 a.tx.packages) ≡ stream a₀.tx.packages ++ bytes))
run-Fed a₀ b₀ a b posts ready run =
    let (bytes, all, s) = run-Synced (IsReady-Synced ready) run in
    (
      bytes,
      s.log,
      all,
      s.fed,
      elim s.settled [
        | inl (_, flow) ↦ inl (ap (λ ps. flat s.log ++ stream ps) s.shape ∙ flow)
        | inr (_, flow) ↦ inr (ap (λ ps. flat s.log ++ stream (drop 1 ps)) s.shape ∙ flow)
      ],
    )
