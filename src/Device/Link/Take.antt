-- ===== src/Device/Link/Take.antt =====
-- The consumers do not disturb the exchange.
use iccom_utils.Base.{ℕ, refl, sym, subst}
use iccom_utils.Storage.{Storage}
use iccom_utils.Device.{Private}
use iccom_utils.Device.Api.Read.{Reads, read_message-Reads, consumer_notification-Reads}
use iccom_utils.Device.Link.{Taken, read, notified, fed_taken}
use iccom_utils.Device.Link.Sync.{Synced}
use iccom_utils.Base.{List, []}

Taken-Reads : (d d' : Private) → Taken d d' → Reads d d'
Taken-Reads d d' (read channel outputs_ok e) = read_message-Reads d d' channel outputs_ok e
Taken-Reads d d' (notified owned e) =
    subst (Reads d) e (consumer_notification-Reads owned (λ channel. []) d)

pub take_a-Synced :
    {s₀ : Storage} {a a' b : Private} {sent : List ℕ}
    → Taken a a'
    → Synced s₀ a b sent
    → Synced s₀ a' b sent
take_a-Synced {s₀} {a} {a'} {b} {sent} t s =
    subst (λ x. Synced s₀ x b sent) (sym (Taken-Reads a a' t))
      (record {
        first = s.first;
        rest = s.rest;
        shape = s.shape;
        sealed = s.sealed;
        chained = s.chained;
        sends = s.sends;
        a_waits = s.a_waits;
        b_waits = s.b_waits;
        acks = s.acks;
        nacks = s.nacks;
        log = s.log;
        fed = s.fed;
        settled = s.settled;
      })

pub take_b-Synced :
    {s₀ : Storage} {a b b' : Private} {sent : List ℕ}
    → Taken b b'
    → Synced s₀ a b sent
    → Synced s₀ a b' sent
take_b-Synced {s₀} {a} {b} {b'} {sent} t s =
    subst (λ x. Synced s₀ a x sent) (sym (Taken-Reads b b' t))
      (record {
        first = s.first;
        rest = s.rest;
        shape = s.shape;
        sealed = s.sealed;
        chained = s.chained;
        sends = s.sends;
        a_waits = s.a_waits;
        b_waits = s.b_waits;
        acks = s.acks;
        nacks = s.nacks;
        log = s.log;
        fed = fed_taken b b' s.fed refl t refl;
        settled = s.settled;
      })
