-- ===== src/Device/Link/Stage.antt =====
-- What the two stages do to a device, as far as the other side is concerned.
use iccom_utils.Base.{
  ℕ, ◌≡◌, ◌≢◌, refl, ap, sym, ◌∙◌, inl, inr, [], ◌∷◌, drop, Option, none, some, Bool-cases,
}
use iccom_utils.Base.{◌==◌, ==_iff, ==_false}
use mathlib.Core.Option
use iccom_utils.Kernel.{Status, ok, err, Errno}
use iccom_utils.Package.{Package, get_id, verify_package_data, payload_start_offset}
use iccom_utils.Device.{Private}
use iccom_utils.Device.Receive.{Parsed, finish, process_package_payload}
use iccom_utils.Device.Receive.Loop.{process_package_payload-ends}
use iccom_utils.Device.Callbacks.{data_stage, verified, parsed, fillup_ack_xfer}

-- The parts of a device that its data stage does not touch.
abbrev pub Steady : Private → Private → Type 0
Steady d d' =
    (d'.tx ≡ d.tx)
    × (d'.closing ≡ d.closing)
    × (d'.data_xfer_stage ≡ d.data_xfer_stage)
    × (d'.ack_val ≡ d.ack_val)
    × (d'.nack_val ≡ d.nack_val)

-- How a data stage ends: a broken package, a known one, one whose payload went into the storage,
-- and one whose payload did not.
pub data Staged (d : Private) (rx : Package) (d' : Private) : Type 0 where
  broken :
      verify_package_data rx ≡ none
      → d'.rx_messages ≡ d.rx_messages
      → d'.last_rx_package_id ≡ d.last_rx_package_id
      → d'.xfer.data_tx ≡ d.nack_val ∷ []
      → Staged d rx d'
  known :
      (n : ℕ)
      → verify_package_data rx ≡ some n
      → d.last_rx_package_id ≡ get_id rx
      → d'.rx_messages ≡ d.rx_messages
      → d'.last_rx_package_id ≡ d.last_rx_package_id
      → d'.xfer.data_tx ≡ d.ack_val ∷ []
      → Staged d rx d'
  stored :
      (n : ℕ) (d₁ : Private)
      → verify_package_data rx ≡ some n
      → get_id rx ≢ d.last_rx_package_id
      → process_package_payload d (drop payload_start_offset rx.bytes) n ≡ some (ok, d₁)
      → d'.rx_messages ≡ d₁.rx_messages
      → d'.last_rx_package_id ≡ get_id rx
      → d'.xfer.data_tx ≡ d.ack_val ∷ []
      → Staged d rx d'
  in_vain :
      (n : ℕ) (d₁ : Private) (e : Errno)
      → verify_package_data rx ≡ some n
      → process_package_payload d (drop payload_start_offset rx.bytes) n ≡ some (err e, d₁)
      → d'.rx_messages ≡ d₁.rx_messages
      → d'.last_rx_package_id ≡ d.last_rx_package_id
      → d'.xfer.data_tx ≡ d.nack_val ∷ []
      → Staged d rx d'

abbrev IsStaged : Private → Package → Option Private → Type 0
IsStaged d rx o = (d' : Private) × (o ≡ some d') × Steady d d' × Staged d rx d'

finish-Steady :
    (d : Private) (p : Parsed)
    → Steady d (finish d p).1 × ((finish d p).1.last_rx_package_id ≡ d.last_rx_package_id)
unfolding finish
finish-Steady d p = elim (Bool-cases p.success) [
  | inl e ↦ rw e ((refl, refl, refl, refl, refl), refl)
  | inr e ↦ rw e ((refl, refl, refl, refl, refl), refl)
]

parsed-IsStaged :
    (d : Private) (rx : Package) (n : ℕ) (r : Status × Private)
    → verify_package_data rx ≡ some n
    → get_id rx ≢ d.last_rx_package_id
    → process_package_payload d (drop payload_start_offset rx.bytes) n ≡ some r
    → Steady d r.1 × (r.1.last_rx_package_id ≡ d.last_rx_package_id)
    → IsStaged d rx (some (parsed rx r))
unfolding parsed fillup_ack_xfer
parsed-IsStaged d rx n (ok, d₁) good fresh e (steady, last) =
    (_, refl, steady, stored n d₁ good fresh e refl refl (ap (λ (v : ℕ). v ∷ []) steady.3))
parsed-IsStaged d rx n (err x, d₁) good fresh e (steady, last) =
    (_, refl, steady, in_vain n d₁ x good e refl last (ap (λ (v : ℕ). v ∷ []) steady.4))

verified-IsStaged :
    (d : Private) (rx : Package) (v : Option ℕ)
    → verify_package_data rx ≡ v
    → IsStaged d rx (verified d rx v)
unfolding verified fillup_ack_xfer
verified-IsStaged d rx none e = (_, refl, (refl, refl, refl, refl, refl), broken e refl refl refl)
verified-IsStaged d rx (some n) e = elim (Bool-cases (get_id rx == d.last_rx_package_id)) [
  | inl same ↦ rw same (
    _,
    refl,
    (refl, refl, refl, refl, refl),
    known n e (sym ((==_iff (get_id rx) d.last_rx_package_id).0 same)) refl refl refl,
  )
  | inr fresh ↦
      let (p, ends) = process_package_payload-ends d (drop payload_start_offset rx.bytes) n in
      let (d', e', steady, staged) =
        parsed-IsStaged d rx n (finish d p) e (==_false (get_id rx) d.last_rx_package_id fresh) ends
          (finish-Steady d p) in
      rw fresh (d', ap (Option.map (parsed rx)) ends ∙ e', steady, staged)
]

pub data_stage-IsStaged :
    (d : Private) (rx : Package)
    → (d' : Private) × (data_stage d rx ≡ some d') × Steady d d' × Staged d rx d'
unfolding data_stage
data_stage-IsStaged d rx = verified-IsStaged d rx (verify_package_data rx) refl
