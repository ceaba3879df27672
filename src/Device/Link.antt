-- ===== src/Device/Link.antt =====
-- Two devices and the wire between them: a data stage and an ack stage of driver/iccom.c on both
-- sides, with transfers that arrive, or arrive damaged in a way that the receiver finds.
pub mod Stage
pub mod Callback
pub mod Retry
pub mod Sync
pub mod Delivery
pub mod Take
pub mod Runs
pub mod Progress
pub mod Start
mod Tests
use iccom_utils.Base.{
  ℕ, ◌≡◌, ◌≢◌, ◌<◌, ◌⊎◌, List, [], ◌∷◌, ◌++◌, Bool, true, false, none, some, length, take,
}
use iccom_utils.Kernel.{Status, ok, err, Errno}
use iccom_utils.Package.{Package, data_xfer_size, ack_xfer_size, verify_package_data}
use iccom_utils.Packet.Message.{Carries}
use iccom_utils.Storage.{Storage}
use iccom_utils.Storage.Deliver.{Ownership}
use iccom_utils.Device.{Private}
use iccom_utils.Device.Receive.{process_package_payload}
use iccom_utils.Device.Callbacks.{
  verify_ack, next_xfer, xfer_done_callback, xfer_failed_callback, consumer_notification_routine,
}
use iccom_utils.Device.Api.{device, Xchange, post_message, read_message, channel_ok}

-- The package that `__iccom_xfer_done_callback` makes of the received bytes.
abbrev pub received : List ℕ → ℕ → Package
received bytes size = record { bytes = bytes; size = size; owns_data = false }

-- A package on the wire: it arrives as it was sent, or fails the check.
abbrev pub Arrives : List ℕ → List ℕ → Type 0
Arrives sent rx = (rx ≡ sent) ⊎ (verify_package_data (received rx data_xfer_size) ≡ none)

-- An answer on the wire: it arrives as it was sent, or is no ACK any more.
abbrev pub Answers : List ℕ → List ℕ → Type 0
Answers sent rx = (rx ≡ sent) ⊎ (verify_ack (received rx ack_xfer_size) ≡ false)

-- A transfer in the data stage: `rx` arrives, or the transport layer reports a failure.
pub data Transferred (d : Private) (rx : List ℕ) : Private → Type 0 where
  done :
      {d' : Private}
      → xfer_done_callback d (some rx) data_xfer_size ≡ some (next_xfer d' true)
      → Transferred d rx d'
  failed :
      {d' : Private} (now_ns : ℕ)
      → xfer_failed_callback d now_ns ≡ next_xfer d' false
      → Transferred d rx d'

-- Transfers of an answer that fail, one after the other.
pub data Retried (d : Private) : Private → Type 0 where
  no_retry : Retried d d
  retry :
      {d₁ d' : Private} (now_ns : ℕ)
      → Retried d d₁
      → xfer_failed_callback d₁ now_ns ≡ next_xfer d' false
      → Retried d d'

-- A data stage and an ack stage of both devices. Of what `a` receives in the data stage, and `b` in
-- the ack stage, nothing is assumed: it belongs to the other direction.
pub data Round (a b : Private) : Private → Private → Type 0 where
  round :
      {a' b' : Private} (a₁ b₁ a₂ b₂ : Private) (rx_a rx_b ack_a ack_b : List ℕ)
      (start_a start_b : Bool)
      → Arrives a.xfer.data_tx rx_b
      → Transferred a rx_a a₁
      → Transferred b rx_b b₁
      → Retried a₁ a₂
      → Retried b₁ b₂
      → Answers b₂.xfer.data_tx ack_a
      → xfer_done_callback a₂ (some ack_a) ack_xfer_size ≡ some (next_xfer a' start_a)
      → xfer_done_callback b₂ (some ack_b) ack_xfer_size ≡ some (next_xfer b' start_b)
      → Round a b a' b'

-- A round of both directions in which every transfer arrives as it was sent: each device gets the
-- package of the other one, and then its answer.
pub data Undamaged (a b : Private) : Private → Private → Type 0 where
  undamaged :
      {a' b' : Private} (a₁ b₁ : Private) (start_a start_b : Bool)
      → xfer_done_callback a (some b.xfer.data_tx) data_xfer_size ≡ some (next_xfer a₁ true)
      → xfer_done_callback b (some a.xfer.data_tx) data_xfer_size ≡ some (next_xfer b₁ true)
      → xfer_done_callback a₁ (some b₁.xfer.data_tx) ack_xfer_size ≡ some (next_xfer a' start_a)
      → xfer_done_callback b₁ (some a₁.xfer.data_tx) ack_xfer_size ≡ some (next_xfer b' start_b)
      → Undamaged a b a' b'

-- A message and its channel.
pub record Post : Type 0 where
  pub channel : ℕ
  pub message : List ℕ

-- What the consumers of a device do with its storage: a message is read, or they are called
-- back, while nothing arrives.
pub data Taken (d : Private) : Private → Type 0 where
  read :
      {d' : Private} (channel : ℕ) (outputs_ok : Bool)
      → (read_message (device d) channel outputs_ok).2 ≡ device d'
      → Taken d d'
  notified :
      {d' : Private} (owned : Ownership)
      → (consumer_notification_routine owned (λ channel. []) d).1 ≡ d'
      → Taken d d'

-- What happens from `a₀` and `b₀` on, with the messages that are posted to the queue of the first
-- device on the way. A post that returns -ENOMEM ends what is considered.
pub data Run (a₀ b₀ : Private) : Private → Private → List Post → Type 0 where
  begin : Run a₀ b₀ a₀ b₀ []
  exchange :
      {a b a' b' : Private} {posts : List Post}
      → Run a₀ b₀ a b posts
      → Round a b a' b'
      → Run a₀ b₀ a' b' posts
  take_a :
      {a a' b : Private} {posts : List Post}
      → Run a₀ b₀ a b posts
      → Taken a a'
      → Run a₀ b₀ a' b posts
  take_b :
      {a b b' : Private} {posts : List Post}
      → Run a₀ b₀ a b posts
      → Taken b b'
      → Run a₀ b₀ a b' posts
  post :
      {a a' b : Private} {posts : List Post} (p : Post) (answer : Xchange) (status : Status)
      → Run a₀ b₀ a b posts
      → 0 < length p.message
      → channel_ok p.channel ≡ true
      → post_message (device a) (some p.message) (length p.message) p.channel answer
        ≡ some (status, device a')
      → status ≢ err Errno.enomem
      → Run a₀ b₀ a' b (posts ++ p ∷ [])

-- The payload bytes that carry some messages, one after the other.
pub data CarriesAll : List Post → List ℕ → Type 0 where
  no_posts : CarriesAll [] []
  one_more :
      {posts : List Post} {sent : List ℕ} (p : Post) (bytes : List ℕ)
      → CarriesAll posts sent
      → Carries p.channel p.message bytes
      → CarriesAll (posts ++ p ∷ []) (sent ++ bytes)

-- A storage that was `s₀`, and into which the payloads of `log` were taken, in this order and with
-- success; attempts that failed, and the consumers, may come between them.
pub data Fed (s₀ : Storage) : List (List ℕ) → Storage → Type 0 where
  fed_nothing : Fed s₀ [] s₀
  fed_more :
      {log : List (List ℕ)} {s s' : Storage} (d d' : Private) (start : List ℕ) (n : ℕ)
      → Fed s₀ log s
      → d.rx_messages ≡ s
      → process_package_payload d start n ≡ some (ok, d')
      → d'.rx_messages ≡ s'
      → Fed s₀ (log ++ take n start ∷ []) s'
  fed_in_vain :
      {log : List (List ℕ)} {s s' : Storage} (d d' : Private) (start : List ℕ) (n : ℕ) (e : Errno)
      → Fed s₀ log s
      → d.rx_messages ≡ s
      → process_package_payload d start n ≡ some (err e, d')
      → d'.rx_messages ≡ s'
      → Fed s₀ log s'
  fed_taken :
      {log : List (List ℕ)} {s s' : Storage} (d d' : Private)
      → Fed s₀ log s
      → d.rx_messages ≡ s
      → Taken d d'
      → d'.rx_messages ≡ s'
      → Fed s₀ log s'
