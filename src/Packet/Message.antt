-- ===== src/Packet/Message.antt =====
-- What it means that payload bytes carry a message: the message cut into non-empty packets of its
-- channel, of which the last one, and no other, is marked as complete.
use iccom_utils.Base.{ℕ, ◌^◌, ◌<◌, List, ◌++◌, true, false, length}
use iccom_utils.Packet.Codec.{encode}

pub data Carries (channel : ℕ) : List ℕ → List ℕ → Type 0 where
  whole :
      (payload : List ℕ)
      → 0 < length payload
      → length payload < 2 ^ 16
      → Carries channel payload (encode payload channel true)
  part :
      (payload : List ℕ) {rest bytes : List ℕ}
      → 0 < length payload
      → length payload < 2 ^ 16
      → Carries channel rest bytes
      → Carries channel (payload ++ rest) (encode payload channel false ++ bytes)
