-- ===== src/Device/Link/Tests.antt =====
-- The theorems about two devices at a concrete pair: both have just been initialised, the first one
-- posts a message of three bytes on channel 5, and there is a round without damage.
use iccom_utils.Base.{ℕ, ◌≡◌, refl, ◌⊎◌, inl, inr, arith, List, [], ◌∷◌, ◌++◌, true, some, drop}
use iccom_utils.Kernel.{Status, Memory, ok}
use iccom_utils.Device.{Private, Tx}
use iccom_utils.Device.Queue.{queue_append_message}
use iccom_utils.Device.Queue.Enqueue.{stream}
use iccom_utils.Device.Queue.Chain.{IsChained}
use iccom_utils.Device.Queue.Chain.Loop.{queue_append_message-IsChained}
use iccom_utils.Device.Api.{
  device, Surroundings, nonnegative, iccom_init, channel_ok, initiate_data_xfer,
}
use iccom_utils.Device.Api.Post.{post_message_lem, with_tx, initiate_data_xfer_enomem}
use iccom_utils.Device.Api.Start.{
  initial, initial-memory, iccom_init-initial, iccom_init-IsStarted, IsStarted,
}
use iccom_utils.Device.Link.{Undamaged, Run, begin, exchange, post, Post, CarriesAll, Fed}
use iccom_utils.Device.Link.Sync.{flat}
use iccom_utils.Device.Link.Runs.{IsReady, IsReady-Synced, run-Synced, run-Fed}
use iccom_utils.Device.Link.Progress.{Round-delivers, Undamaged-Round, run-delivers, Unstored}
use iccom_utils.Device.Link.Start.{iccom_init-IsReady}

abbrev surroundings : Surroundings
surroundings = record {
  xfer_device_ok = true;
  interface_ok = true;
  root_made = true;
  statistics_made = true;
  stale_rx_package_id = 0;
  work_queue_ok = true;
  transport_init = ok;
}

abbrev start : Private
start = initial surroundings

init : (iccom_init surroundings []).0 ≡ (ok, device start)
init = iccom_init-initial surroundings refl refl refl

iccom_init-IsReady_example : IsReady start start
iccom_init-IsReady_example =
    iccom_init-IsReady surroundings surroundings [] [] start start init init (omega arith)

ready : IsReady start start
ready = iccom_init-IsReady surroundings surroundings [] [] start start init init (omega arith)

started : IsStarted surroundings start
started = iccom_init-IsStarted surroundings [] start init

abbrev hello : Post
hello = record { channel = 5; message = 1 ∷ 2 ∷ 3 ∷ [] }

-- The message is posted, and there is a round without damage.
played : (b : Private) × (a : Private) × Run start start a b (hello ∷ [])
unfolding channel_ok
played =
    elim (post_message_lem start started.first [] hello.message 5 (nonnegative 0) started.shape
      (started.sealed, tt) (omega arith) valid started.idle) [
        | inr (t, m, _, limited) ↦ absurd (limited (initial-memory surroundings))
        | inl (t, m, _, _, e, _, _, _, _) ↦
            let a = with_tx start t m in
            let run : Run start start a start (hello ∷ []) =
              post hello (nonnegative 0) (initiate_data_xfer a (nonnegative 0)) begin (omega arith)
                valid e (initiate_data_xfer_enomem a (nonnegative 0)) in
            let (_, _, s) = run-Synced (IsReady-Synced ready) run in
            let (a', b', r, _) = Round-delivers s in (b', a', exchange run (Undamaged-Round r))
      ]
  where
    valid : channel_ok 5 ≡ true
    valid = refl

run-Fed_example :
    (bytes : List ℕ) × (log : List (List ℕ)) × CarriesAll (hello ∷ []) bytes
    × Fed start.rx_messages log played.0.rx_messages
    × ((flat log ++ stream played.1.tx.packages ≡ stream start.tx.packages ++ bytes)
        ⊎ (flat log ++ stream (drop 1 played.1.tx.packages) ≡ stream start.tx.packages ++ bytes))
run-Fed_example = run-Fed start start played.1 played.0 (hello ∷ []) ready played.2

run-delivers_example :
    (a' : Private) × (b' : Private) × Undamaged start start a' b'
    × Run start start a' b' []
    × ((stream a'.tx.packages ≡ stream (drop 1 start.tx.packages))
        ⊎ Unstored start start.xfer.data_tx)
run-delivers_example = run-delivers start start start start [] ready begin

queue_append_message-IsChained_example :
    (status : Status) × (t' : Tx) × (m' : Memory) × (queue_append_message start.tx
        (1 ∷ 2 ∷ 3 ∷ [])
        3
        5
        []
      ≡ some (status, t', m'))
    × IsChained t'
queue_append_message-IsChained_example =
    queue_append_message-IsChained start.tx (1 ∷ 2 ∷ 3 ∷ []) 3 5 [] started.chained
