-- ===== src/Device/Link/Start.antt =====
-- Two devices that have just been initialised.
use iccom_utils.Base.{◌≡◌, ◌≢◌, sym, ◌∙◌, []}
use iccom_utils.Kernel.{ok, Memory}
use iccom_utils.Device.{Private}
use iccom_utils.Device.Api.{device, Surroundings, iccom_init}
use iccom_utils.Device.Api.Start.{iccom_init-IsStarted}
use iccom_utils.Device.Link.Runs.{IsReady}

-- Two devices that iccom_init has initialised with success are ready to exchange packages, if the
-- field last_rx_package_id of the second one, which is never set, does not happen to hold 1.
pub iccom_init-IsReady :
    (w w' : Surroundings) (m m' : Memory) (a b : Private)
    → (iccom_init w m).0 ≡ (ok, device a)
    → (iccom_init w' m').0 ≡ (ok, device b)
    → w'.stale_rx_package_id ≢ 1
    → IsReady a b
iccom_init-IsReady w w' m m' a b e e' fresh =
    let s = iccom_init-IsStarted w m a e in
    let s' = iccom_init-IsStarted w' m' b e' in
    record {
      first = s.first;
      rest = [];
      shape = s.shape;
      sealed = (s.sealed, tt);
      chained = s.chained;
      sends = s.sends;
      a_waits = (s.idle, s.stage);
      b_waits = (s'.idle, s'.stage);
      acks = s'.acks;
      nacks = s'.nacks;
      fresh = λ h. fresh (sym s'.last ∙ h ∙ s.id);
    }
