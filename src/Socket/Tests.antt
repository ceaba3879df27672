-- ===== src/Socket/Tests.antt =====
-- The theorems about the sockets at concrete inputs: the rule that loops the channels 0 to 100 to
-- 200 to 300, and texts of one character for a number.
use iccom_utils.Base.{
  ℕ, ◌-◌, ◌≡◌, ◌⊎◌, refl, inl, arith, List, [], ◌∷◌, true, false, Option, none, some,
}
use iccom_utils.Kernel.{ok, err, Errno}
use iccom_utils.Device.Api.{device, nonnegative, post_message}
use iccom_utils.Tests
use iccom_utils.Socket.{
  match_rule, Rule, SocketDevice, remote, partner, match_channel2lbackrule, lback_rule_verify,
}
use iccom_utils.Socket.Loopback.{IsRule, match_channel2lbackrule_lem}
use iccom_utils.Socket.Control.{failed, lback_rule_write}
use iccom_utils.Socket.Control.Update.{lback_rule_write_lem, Installed}
use iccom_utils.Socket.Loopback.Pairs.{Linked}
use iccom_utils.Socket.Dispatch.{dispatch_msg_down, msg_rx_callback, posted_down}
use iccom_utils.Socket.Dispatch.Isolation.{dispatch-looped, dispatch-partner, from_port, to_port}
use iccom_utils.Socket.Lifecycle.{Opening, created, device_close, device_init}
use iccom_utils.Socket.Lifecycle.Closed.{IsClosed, EntriesAfter, device_close_lem}
use iccom_utils.Socket.Lifecycle.Opened.{IsOpened, left_behind, device_init_lem}

abbrev loop : Rule
loop = record { from = 0; to = 100; shift = 200 }

loop-IsRule : IsRule loop
loop-IsRule = (omega arith, omega arith, omega arith)

match_channel2lbackrule_lem_example :
    (match_channel2lbackrule (some loop) 205 ≡ remote) × (partner loop remote 205 ≡ 5)
unfolding lback_rule_verify match_channel2lbackrule
match_channel2lbackrule_lem_example =
    match_channel2lbackrule_lem loop 5 loop-IsRule (inl (omega arith)) refl (omega arith)

-- A character for each number, behind the white space.
abbrev letter : List ℕ → Option ℕ
letter [] = none
letter (c ∷ cs) = some (c - 64)

abbrev stale : Rule
stale = record { from = 7; to = 8; shift = 9 }

abbrev looped : SocketDevice
looped = record {
  socket = true;
  socket_closed = false;
  iccom = device Tests.device;
  iccom_entries = record { proc_root = true; statistics_file = true };
  transport = true;
  exiting = false;
  proc_root = true;
  loopback_ctl_file = true;
  lback_map_rule = some loop;
}

abbrev line : List ℕ
line = 65 ∷ 32 ∷ 66 ∷ 32 ∷ 64 ∷ 10 ∷ []

lback_rule_write_lem_example :
    let result = lback_rule_write letter looped line 6 0 true 0 stale true in
    Installed letter looped line 6 0 stale result ⊎ ((e : Errno) × (result ≡ (failed e, looped)))
lback_rule_write_lem_example = lback_rule_write_lem letter looped line 6 0 true 0 stale true

dispatch-looped_example :
    let down = dispatch_msg_down looped (from_port 5 (1 ∷ 2 ∷ [])) true ok (nonnegative 0) in
    let up = msg_rx_callback looped 5 (3 ∷ []) true ok in
    ((other : ℕ) × (Linked loop 5 other ⊎ Linked loop other 5)
      × (down ≡ some (ok, some (to_port other (1 ∷ 2 ∷ [])), looped))
      × (up ≡ (false, none)))
    ⊎ (((other : ℕ) → ¬ Linked loop 5 other)
        × ((other : ℕ) → ¬ Linked loop other 5)
        × (down
            ≡ posted_down looped
                (post_message looped.iccom (some (1 ∷ 2 ∷ [])) 2 5 (nonnegative 0)))
        × (up ≡ (false, some (to_port 5 (3 ∷ [])))))
unfolding lback_rule_verify
dispatch-looped_example =
    dispatch-looped looped loop 5 (1 ∷ 2 ∷ []) (3 ∷ []) (nonnegative 0) refl loop-IsRule
      (inl (omega arith)) refl (omega arith) (omega arith) (omega arith)

dispatch-partner_example :
    (dispatch_msg_down looped (from_port 5 (1 ∷ [])) true ok (nonnegative 0)
      ≡ some (ok, some (to_port 205 (1 ∷ [])), looped))
    × (dispatch_msg_down looped (from_port 205 (2 ∷ [])) true ok (nonnegative 0)
        ≡ some (ok, some (to_port 5 (2 ∷ [])), looped))
unfolding lback_rule_verify match_channel2lbackrule match_rule
dispatch-partner_example =
    dispatch-partner looped loop 5 (1 ∷ []) (2 ∷ []) (nonnegative 0) refl loop-IsRule
      (inl (omega arith)) refl (omega arith) (omega arith) (omega arith) (λ e. cc) (omega arith)

device_close_lem_example :
    IsClosed (device_close looped) × EntriesAfter looped (device_close looped)
device_close_lem_example = device_close_lem looped (inl (Tests.device, refl, refl))

abbrev opening : Opening
opening = record {
  creation = created;
  callback = 1;
  consumer = 2;
  surroundings = record {
    xfer_device_ok = true;
    interface_ok = true;
    root_made = true;
    statistics_made = true;
    stale_rx_package_id = 0;
    work_queue_ok = true;
    transport_init = ok;
  };
  memory = [];
  root_made = true;
  rule_granted = true;
  file_made = false;
}

device_init_lem_example :
    let (status, d) = device_init opening in
    (((status ≡ ok) × IsOpened opening d) ⊎ ((e : Errno) × (status ≡ err e) × IsClosed d))
    × (d.iccom_entries ≡ left_behind opening created)
device_init_lem_example = device_init_lem opening
