-- ===== src/Storage/Commit.antt =====
-- driver/iccom.c, commit and rollback of the data that the current package has added.
pub mod Settled
pub mod Transaction
use iccom_utils.Base.{ℕ, ◌-◌, List, map, Bool, true, false, ◌==◌, if◌then◌else◌}
use iccom_utils.Storage.{Message, Channel, Storage}

pub rollback_message : Message → Message
rollback_message m = if m.uncommitted_length == 0 then m else record m {
  finalized = false;
  length = m.length - m.uncommitted_length;
  uncommitted_length = 0;
}

pub commit_message : Message → Message
commit_message m = if m.uncommitted_length == 0 then m else record m { uncommitted_length = 0 }

pub channel_rollback : Channel → Channel
channel_rollback c = record c { messages = map rollback_message c.messages }

pub channel_commit : Channel → Channel
channel_commit c = record c { messages = map commit_message c.messages }

-- Leaves `uncommitted_finalized_count` as it is.
pub rollback : Storage → Storage
rollback s = record s { channels = map channel_rollback s.channels }

unfoldable pub commit : Storage → Storage
commit s = record s { channels = map channel_commit s.channels; uncommitted_finalized_count = 0 }
