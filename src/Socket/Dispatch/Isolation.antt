-- ===== src/Socket/Dispatch/Isolation.antt =====
-- Looped channels: two users talk to each other, and neither meets the other side.
use iccom_utils.Base.{
  ℕ, ◌%◌, ◌^◌, ◌≤◌, ◌<◌, ◌≡◌, ◌≢◌, ◌⊎◌, inl, inr, refl, ap, ◌∙◌, arith, List, true, false, Option,
  none, some,
}
use iccom_utils.Base.{ltb, length}
use iccom_utils.Kernel.{ok}
use iccom_utils.Device.Api.{Xchange, post_message}
use iccom_utils.Socket.{
  Rule, End, outside, local, remote, SocketDevice, partner, match_channel2lbackrule,
  max_message_size, lback_rule_verify,
}
use iccom_utils.Socket.Loopback.{IsRule, IsMild, opposite, match_channel2lbackrule_lem}
use iccom_utils.Socket.Loopback.Pairs.{Linked, match_cases}
use iccom_utils.Socket.Dispatch.{
  Sent, Netlink, dispatch_msg_up, dispatch_msg_down, route, loop_port, passed, msg_rx_callback,
  posted_down,
}

-- Where a looped message goes.
loop_port_lem :
    (rule : Rule) (side : End) (channel : ℕ)
    → side ≢ outside
    → loop_port (some rule) side channel ≡ some (partner rule side channel)
unfolding loop_port
loop_port_lem rule outside channel looped = absurd (looped refl)
loop_port_lem rule local channel looped = refl
loop_port_lem rule remote channel looped = refl

passed_lem : (side : End) (sent : Option Sent) → side ≢ outside → passed side sent ≡ none
unfolding passed
passed_lem outside sent looped = absurd (looped refl)
passed_lem local sent looped = refl
passed_lem remote sent looped = refl

abbrev pub from_port : ℕ → List ℕ → Netlink
from_port port content = record { portid = port; well_formed = true; payload = content }

abbrev pub to_port : ℕ → List ℕ → Sent
to_port port content = record { port = port; payload = content }

opposite_looped : (side : End) → side ≢ outside → opposite side ≢ outside
opposite_looped outside looped e = looped refl
opposite_looped local looped e = cc
opposite_looped remote looped e = cc

-- What the user gets from a port whose channel is looped.
crossing :
    (d : SocketDevice) (rule : Rule) (channel : ℕ) (side : End) (content : List ℕ)
    (answer : Xchange)
    → d.lback_map_rule ≡ some rule
    → channel < 2 ^ 15
    → match_channel2lbackrule (some rule) channel ≡ side
    → side ≢ outside
    → length content ≤ max_message_size
    → dispatch_msg_down d (from_port channel content) true ok answer
      ≡ some (ok, some (to_port (partner rule side channel) content), d)
unfolding dispatch_msg_down route dispatch_msg_up
crossing d rule channel side content answer ruled low matched looped short =
    let wide : channel % 2 ^ 15 ≡ channel = omega arith in
    let fits : ltb max_message_size (length content) ≡ false = ground arith in
    rw (wide, ruled, matched, loop_port_lem rule side channel looped, fits) refl

-- Under a rule that passes the verification and does not overflow, for two ends of a loop that are
-- both below 2^15 and messages of at most 4096 bytes, where buffers are granted and the receiver
-- listens: what a user sends from one end arrives at the other end with its content, what is sent
-- from there arrives at the first, and the device does not change.
pub dispatch-partner :
    (d : SocketDevice) (rule : Rule) (channel : ℕ) (question reply : List ℕ) (answer : Xchange)
    → d.lback_map_rule ≡ some rule
    → IsRule rule
    → IsMild rule.shift
    → lback_rule_verify rule ≡ ok
    → channel < 2 ^ 15
    → length question ≤ max_message_size
    → length reply ≤ max_message_size
    → let side = match_channel2lbackrule (some rule) channel in
      let other = partner rule side channel in
      side ≢ outside
      → other < 2 ^ 15
      → (dispatch_msg_down d (from_port channel question) true ok answer
          ≡ some (ok, some (to_port other question), d))
        × (dispatch_msg_down d (from_port other reply) true ok answer
            ≡ some (ok, some (to_port channel reply), d))
dispatch-partner d rule channel question reply answer ruled fits mild good low small small' looped
      low' =
    let side = match_channel2lbackrule (some rule) channel in
    let other = partner rule side channel in
    let (crossed, back) = match_channel2lbackrule_lem rule channel fits mild good (omega arith) in
    (
      crossing d rule channel side question answer ruled low refl looped small,
      crossing d rule other (opposite side) reply answer ruled low' crossed
            (opposite_looped side looped) small'
          ∙ ap (λ c. some (ok, some (to_port c reply), d)) back,
    )

-- A message from a channel of a pair, and one from the other side on it.
looped :
    (d : SocketDevice) (rule : Rule) (channel : ℕ) (side : End) (content incoming : List ℕ)
    (answer : Xchange)
    → d.lback_map_rule ≡ some rule
    → channel < 2 ^ 15
    → match_channel2lbackrule (some rule) channel ≡ side
    → side ≢ outside
    → length content ≤ max_message_size
    → (dispatch_msg_down d (from_port channel content) true ok answer
        ≡ some (ok, some (to_port (partner rule side channel) content), d))
      × (msg_rx_callback d channel incoming true ok ≡ (false, none))
unfolding msg_rx_callback
looped d rule channel side content incoming answer ruled low matched inside short = (
  crossing d rule channel side content answer ruled low matched inside short,
  rw (ruled, matched)
      (ap (λ s. (false, s)) (passed_lem side (dispatch_msg_up channel incoming true ok).1 inside)),
)

-- The same for a channel of no pair.
unlooped :
    (d : SocketDevice) (rule : Rule) (channel : ℕ) (content incoming : List ℕ) (answer : Xchange)
    → d.lback_map_rule ≡ some rule
    → channel < 2 ^ 15
    → match_channel2lbackrule (some rule) channel ≡ outside
    → length incoming ≤ max_message_size
    → (dispatch_msg_down d (from_port channel content) true ok answer
        ≡ posted_down d (post_message d.iccom (some content) (length content) channel answer))
      × (msg_rx_callback d channel incoming true ok ≡ (false, some (to_port channel incoming)))
unfolding dispatch_msg_down route loop_port msg_rx_callback passed dispatch_msg_up
unlooped d rule channel content incoming answer ruled low matched short =
    let wide : channel % 2 ^ 15 ≡ channel = omega arith in
    let fits : ltb max_message_size (length incoming) ≡ false = ground arith in
    (rw (wide, ruled, matched) refl, rw (ruled, matched, fits) refl)

-- Under a rule that passes the verification, whose fields are ints and whose shift does not
-- overflow, for a channel below 2^15 and two messages of at most 4096 bytes, where buffers are
-- granted and the receiver listens. Either the rule pairs the channel with another one, which is
-- the channel shifted or the channel that is shifted to it: then a message from a user goes to the
-- port of that one with its content and leaves the device as it is, and a message from the other
-- side on the channel reaches nobody. Or the rule has the channel in no pair: then a message from
-- a user is posted to the core, and one from the other side goes to the port of the channel.
pub dispatch-looped :
    (d : SocketDevice) (rule : Rule) (channel : ℕ) (content incoming : List ℕ) (answer : Xchange)
    → d.lback_map_rule ≡ some rule
    → IsRule rule
    → IsMild rule.shift
    → lback_rule_verify rule ≡ ok
    → channel < 2 ^ 15
    → length content ≤ max_message_size
    → length incoming ≤ max_message_size
    → let down = dispatch_msg_down d (from_port channel content) true ok answer in
      let up = msg_rx_callback d channel incoming true ok in
      ((other : ℕ) × (Linked rule channel other ⊎ Linked rule other channel)
        × (down ≡ some (ok, some (to_port other content), d))
        × (up ≡ (false, none)))
      ⊎ (((other : ℕ) → ¬ Linked rule channel other)
          × ((other : ℕ) → ¬ Linked rule other channel)
          × (down
              ≡ posted_down d (post_message d.iccom (some content) (length content) channel answer))
          × (up ≡ (false, some (to_port channel incoming))))
dispatch-looped d rule channel content incoming answer ruled fits mild good low short short' =
    elim (match_cases rule channel fits mild good low) [
      | inl (near, linked) ↦
          let (down, up) =
            looped d rule channel local content incoming answer ruled low near (λ e. cc) short in
          inl (partner rule local channel, inl linked, down, up)
      | inr (inl (far, linked)) ↦
          let (down, up) =
            looped d rule channel remote content incoming answer ruled low far (λ e. cc) short in
          inl (partner rule remote channel, inr linked, down, up)
      | inr (inr (gone, alone, alone')) ↦
          let (down, up) = unlooped d rule channel content incoming answer ruled low gone short' in
          inr (alone, alone', down, up)
    ]
