-- ===== src/Device/Api/Read.antt =====
-- Reading: only the storage and the statistics of the device change.
use iccom_utils.Base.{ℕ, ◌≡◌, refl, sym, subst, ◌∙◌, Bool, true, false, not, Option, if◌then◌else◌}
use iccom_utils.Kernel.{Status}
use iccom_utils.Device.{Private}
use iccom_utils.Storage.Deliver.{Ownership, Arrivals}
use iccom_utils.Device.Callbacks.{consumer_notification_routine}
use iccom_utils.Device.Api.{Handle, device, Received, read_message, channel_ok}

-- The parts that reading does not touch.
abbrev pub Reads : Private → Private → Type 0
Reads d d' = d' ≡ record d {
  rx_messages = d'.rx_messages;
  delivery_scheduled = d'.delivery_scheduled;
  statistics = d'.statistics;
}

abbrev ReadsIn : Private → Status × Option Received × Handle → Type 0
ReadsIn d r = (d' : Private) × (r.2 ≡ device d') × Reads d d'

if-ReadsIn :
    (d : Private) (b : Bool) (r r' : Status × Option Received × Handle)
    → ReadsIn d r
    → ReadsIn d r'
    → ReadsIn d (if b then r else r')
if-ReadsIn d true r r' h g = h
if-ReadsIn d false r r' h g = g

read_message-ReadsIn :
    (d : Private) (channel : ℕ) (outputs_ok : Bool)
    → ReadsIn d (read_message (device d) channel outputs_ok)
unfolding read_message
read_message-ReadsIn d channel outputs_ok =
    if-ReadsIn d (not (channel_ok channel)) _ _ (d, refl, refl)
      (if-ReadsIn d d.closing _ _ (d, refl, refl)
        (if-ReadsIn d (not outputs_ok) _ _ (d, refl, refl) (_, refl, refl)))

pub read_message-Reads :
    (d d' : Private) (channel : ℕ) (outputs_ok : Bool)
    → (read_message (device d) channel outputs_ok).2 ≡ device d'
    → Reads d d'
read_message-Reads d d' channel outputs_ok e =
    let (d₁, e₁, reads) = read_message-ReadsIn d channel outputs_ok in
    let same : d₁ ≡ d' = device_inj (sym e₁ ∙ e) in subst (Reads d) same reads
  where
    device_inj : {x y : Private} → device x ≡ device y → x ≡ y
    device_inj h = cc h

pub consumer_notification-Reads :
    (owned : Ownership) (arrivals : ℕ → Arrivals) (d : Private)
    → Reads d (consumer_notification_routine owned arrivals d).1
unfolding consumer_notification_routine
consumer_notification-Reads owned arrivals d = refl
