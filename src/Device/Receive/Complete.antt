-- ===== src/Device/Receive/Complete.antt =====
-- The rest of a message arrives in one package: what the parsing of the package makes of it.
use mathlib.Core.Option
use iccom_utils.Base.{ℕ, ◌+◌, ◌^◌, ◌<◌, ◌≡◌, ◌≢◌, refl, arith, ap, ◌∙◌, List, [], ◌++◌, map}
use iccom_utils.Base.{true, some, length}
use iccom_utils.Kernel.{ok, Memory}
use iccom_utils.Packet.Message.{Carries}
use iccom_utils.Storage.{Message, Channel, find_channel, message_is_ready}
use iccom_utils.Storage.Commit.{commit, commit_message, channel_commit}
use iccom_utils.Storage.Commit.Settled.{
  find-commit, channel_commit-messages, commit_message-ready, commit_message-bytes,
}
use iccom_utils.Storage.Commit.Transaction.{bytes_of}
use iccom_utils.Device.{Private}
use iccom_utils.Device.Receive.{Parsed, finish, parse_loop, process_package_payload}
use iccom_utils.Device.Receive.Continue.{IsOpen, parse_loop-Carries, with_last}

finish-storage :
    (d : Private) (p : Parsed)
    → p.success ≡ true
    → (d' : Private) × (finish d p ≡ (ok, d')) × (d'.rx_messages ≡ commit p.storage)
unfolding finish
finish-storage d p e = rw e (_, refl, refl)

-- If allocations succeed, the last message of a channel below 2^15 is unfinished and has an ID of
-- its own in the channel, and the payload of a package is the rest of that message cut into
-- packets, then parsing the payload succeeds: the message has its old bytes followed by the rest
-- and is ready, the messages before it are committed as they are, and any other channel is
-- committed as it is.
pub process_package_payload-Carries :
    (d : Private) (channel j : ℕ) (c : Channel) (before : List Message) (m : Message)
    (msg bytes tail : List ℕ)
    → d.memory ≡ []
    → channel < 2 ^ 15
    → j ≢ channel
    → IsOpen d.rx_messages channel c before m
    → Carries channel msg bytes
    → (d' : Private) × (m' : Message) × (process_package_payload d (bytes ++ tail) (length bytes)
        ≡ some (ok, d'))
      × (find_channel d'.rx_messages channel ≡ some (with_last c (map commit_message before) m'))
      × (bytes_of m' ≡ bytes_of m ++ msg)
      × (message_is_ready m' ≡ true)
      × (find_channel d'.rx_messages j ≡ Option.map channel_commit (find_channel d.rx_messages j))
unfolding process_package_payload
process_package_payload-Carries d channel j c before m msg bytes tail no_limit small ne o carries =
    let (p, m', ends, good, found, grown, finished, same, other) =
      parse_loop-Carries channel j small ne (length bytes + 1) msg bytes tail carries d.rx_messages
        c before m o 0 0 (omega arith) in
    let (d', e, stored) = finish-storage d p good in
    (
      d',
      commit_message m',
      ap
            (λ (mem : Memory).
              Option.map (finish d) (
                parse_loop (length bytes + 1) d.rx_messages (bytes ++ tail) (length bytes) 0 0 mem))
            no_limit
          ∙ ap (Option.map (finish d)) ends
          ∙ ap some e,
      ap (λ s. find_channel s channel) stored
          ∙ find-commit p.storage channel
          ∙ ap (Option.map channel_commit) found
          ∙ ap some (channel_commit-messages c before m'),
      commit_message-bytes m' ∙ grown,
      commit_message-ready m' finished,
      ap (λ s. find_channel s j) stored
          ∙ find-commit p.storage j
          ∙ ap (Option.map channel_commit) other,
    )
