-- ===== src/Libiccom/Tests.antt =====
-- The theorems about the library at concrete inputs: the header of linux/netlink.h, and the rule
-- that loops the channels 0 to 100 to 200 to 300.
use iccom_utils.Base.{
  ℕ, ◌+◌, ◌-◌, ◌*◌, ◌/◌, ◌^◌, ◌<◌, ◌≤◌, ◌≡◌, ◌⊎◌, inl, refl, ap, arith, List, [], ◌∷◌, ◌++◌, true,
  false, ◌&&◌, Option, none, some, leb, length, replicate, get_elem?,
}
use iccom_utils.Kernel.{err, Errno, kmalloc, le32}
use iccom_utils.Package.{word32}
use iccom_utils.Device.Api.{device}
use iccom_utils.Tests
use iccom_utils.Socket.{Rule, SocketDevice, lback_rule_verify}
use iccom_utils.Socket.Loopback.{IsRule, lback_rule_verify-right}
use iccom_utils.Socket.Parse.RoundTrip.{Decimal, render_line}
use iccom_utils.Socket.Control.{bytes, lback_rule_write}
use iccom_utils.Libiccom.{done, failed, errno_enomem, area_prime, area_verify}
use iccom_utils.Libiccom.Timeout.{}
use iccom_utils.Libiccom.Message.{NlmsgFormat, send_data, receive_data_pure, delivered}
use iccom_utils.Libiccom.Message.RoundTrip.{receive-send}
use iccom_utils.Libiccom.Loopback.{loopback_enable}
use iccom_utils.Libiccom.Loopback.Installed.{loopback_enable_lem, loopback_enable-negative}
use iccom_utils.Libiccom.IccomSocket.{
  IccomSocket, write_char, write_data, send, receive, reset_output, input_size, input_at,
}
use iccom_utils.Libiccom.IccomSocket.Output.{IsOutput, write_char-lost}
use iccom_utils.Libiccom.IccomSocket.Run.{
  Use, char_written, sending, run, unused, IsSized, iccom_socket-IsSized, iccom_socket-in_range,
}
use iccom_utils.Libiccom.IccomSocket.RoundTrip.{receive-write, write_all}

linux-nlmsg_ok :
    (n len : ℕ) (behind : List ℕ)
    → 16 ≤ n
    → n ≤ len
    → len < 2 ^ 31
    → (leb 16 len
        && leb 16 (word32 ((le32 n ++ replicate 12 0) ++ behind))
        && leb (word32 ((le32 n ++ replicate 12 0) ++ behind)) len)
      ≡ true
linux-nlmsg_ok n len behind low fits wide = ground arith

abbrev linux : NlmsgFormat
linux = record {
  header_size = 16;
  header = λ n. le32 n ++ replicate 12 0;
  space = λ n. 16 + (n + 3) / 4 * 4;
  nlmsg_len = λ msg. word32 msg;
  nlmsg_ok = λ msg len. leb 16 len && leb 16 (word32 msg) && leb (word32 msg) len;
  length-header = λ n. refl;
  header_fits = omega arith;
  space_lem = λ n low. refl;
  nlmsg_len-header = λ n behind low. omega arith;
  nlmsg_ok-header = linux-nlmsg_ok;
}

receive-send_example :
    let content : List ℕ = 7 ∷ 8 ∷ 9 ∷ [] in
    let buffer : List ℕ = replicate 20 0 in
    (((kmalloc (linux.space 3) []).0 ≡ none)
      × (send_data linux (some content) 3 [] (done 19) ≡ (failed errno_enomem, none)))
    ⊎ ((msg : List ℕ) × (rest : List ℕ) × (send_data linux (some content) 3 [] (done 19)
          ≡ (done 0, some msg))
        × (receive_data_pure linux buffer 20 (delivered (length msg) msg false false false)
            ≡ (done 3, content ++ rest)))
receive-send_example =
    receive-send linux (7 ∷ 8 ∷ 9 ∷ []) (replicate 20 0) [] 19 (omega arith) (omega arith)
      (omega arith)

abbrev socket : IccomSocket
socket = record {
  sock_fd = done 3;
  channel = 1;
  incoming_data = [];
  outgoing_data = replicate 16 0;
  outgoing_payload_size = 0;
}

-- One character was written.
abbrev begun : IccomSocket
begun = record socket {
  outgoing_data = replicate 16 0 ++ 97 ∷ 0 ∷ 0 ∷ 0 ∷ [];
  outgoing_payload_size = 1;
}

write_char-lost_example : write_char linux begun 98 ≡ record begun { outgoing_payload_size = 2 }
write_char-lost_example = write_char-lost linux begun 98 refl (omega arith) (λ e. omega arith)

receive-write_example :
    let content : List ℕ = 1 ∷ 2 ∷ 3 ∷ 4 ∷ 5 ∷ [] in
    let written : IccomSocket =
      write_data linux
        (write_all linux (reset_output linux begun) ((1 ∷ 2 ∷ 3 ∷ 4 ∷ []) ∷ []))
        (5 ∷ []) in
    (s' : IccomSocket) × (msg : List ℕ) × (r' : IccomSocket) × (send linux written true (done 21)
      ≡ (done 0, s', some msg))
    × IsOutput linux s' []
    × (receive linux socket (delivered (length msg) msg false false false) ≡ (done 5, r'))
    × (input_size linux r' ≡ 5)
    × ((idx : ℕ) → input_at linux r' idx ≡ get_elem? content idx)
receive-write_example =
    receive-write linux begun socket ((1 ∷ 2 ∷ 3 ∷ 4 ∷ []) ∷ []) (5 ∷ []) 21 (refl, tt)
      (omega arith) (omega arith)

-- Two characters, a message that the system refuses, and another character.
abbrev uses : List Use
uses = char_written 97 ∷ char_written 98 ∷ sending true (failed 105) ∷ char_written 99 ∷ []

iccom_socket-IsSized_example :
    IsSized linux (run linux (unused linux 1) uses)
    × (((send linux (run linux (unused linux 1) uses) true (failed 105)).0 ≡ done 0)
        ⊎ ((send linux (run linux (unused linux 1) uses) true (failed 105)).0 ≡ failed 105))
iccom_socket-IsSized_example =
    iccom_socket-IsSized linux 1 (unused linux 1) uses true (failed 105)
      (iccom_socket-in_range linux 1 (omega arith))

abbrev loop : Rule
loop = record { from = 0; to = 100; shift = 200 }

loop-IsRule : IsRule loop
loop-IsRule = (omega arith, omega arith, omega arith)

-- A character for each number, behind the white space.
abbrev letter : List ℕ → Option ℕ
letter [] = none
letter (c ∷ cs) = some (c - 64)

letters : Decimal
letters = record {
  kstrtol = letter;
  first = λ n. n + 64;
  rest = λ n. [];
  solid = λ n. (ground arith, tt);
  target = λ n. n;
  kstrtol-print = λ n small. ap some (omega arith);
  target_low = λ n small. omega arith;
}

abbrev stale : Rule
stale = record { from = 7; to = 8; shift = 9 }

abbrev plain : SocketDevice
plain = record {
  socket = true;
  socket_closed = false;
  iccom = device Tests.device;
  iccom_entries = record { proc_root = true; statistics_file = true };
  transport = true;
  exiting = false;
  proc_root = true;
  loopback_ctl_file = true;
  lback_map_rule = none;
}

loopback_enable_lem_example :
    (line : List ℕ) × (loopback_enable (render_line letters) loop (done 4) true
      ≡ (done 0, some line))
    × (lback_rule_write letters.kstrtol plain line (length line) 0 true 0 stale true
        ≡ (bytes (length line), record plain { lback_map_rule = some loop }))
unfolding letters
loopback_enable_lem_example =
    loopback_enable_lem letters loop stale plain 4 loop-IsRule (inl (omega arith))
      (lback_rule_verify-right loop (omega arith) (omega arith) (omega arith) (omega arith))
      (λ e. cc) (omega arith)

-- The channels 0 to 10, shifted by -5.
abbrev overlapping : Rule
overlapping = record { from = 0; to = 10; shift = 2 ^ 32 - 5 }

loopback_enable-negative_example :
    (loopback_enable (render_line letters) overlapping (done 4) true
      ≡ (done 0, some (render_line letters overlapping)))
    × (lback_rule_verify overlapping ≡ err Errno.einval)
loopback_enable-negative_example =
    loopback_enable-negative letters overlapping 5 4 (omega arith) (omega arith) (omega arith) refl

-- The check of the area accepts a channel that is out of range.
far_channel : area_verify 99999 area_prime ≡ true
unfolding area_verify
far_channel = refl
