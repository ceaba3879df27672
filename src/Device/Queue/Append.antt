-- ===== src/Device/Queue/Append.antt =====
-- Appending a message to the queue: the loop ends, and what it adds to the stream of payloads is
-- the message in packets.
use iccom_utils.Base.{ℕ, zero, suc, ◌-◌, ◌^◌, ◌<◌, ◌≡◌, ◌≢◌, refl, arith, ap, ◌∙◌}
use iccom_utils.Base.{List, [], ◌∷◌, ◌++◌, true, false, Option, some, length, drop, All}
use iccom_utils.Base.{append_assoc, append-nil}
use iccom_utils.Base.{==_ne}
use iccom_utils.Kernel.{Status, ok, err, Errno, Memory}
use iccom_utils.Package.{Package, data_xfer_size, package_finalize}
use iccom_utils.Package.Layout.{Fits, pkg}
use iccom_utils.Packet.Codec.{encode}
use iccom_utils.Packet.Message.{Carries, whole, part}
use iccom_utils.Device.{Tx}
use iccom_utils.Device.Queue.{resume, append_loop, add_to_last, enqueue_new_tx_data_package}
use iccom_utils.Device.Queue.Enqueue.{snoc, stream, IsSealed}
use iccom_utils.Device.Queue.Enqueue.{finalized-IsReady}

-- The rounds of the loop.
append_loop_done :
    (fuel : ℕ) (t : Tx) (rest : List ℕ) (channel : ℕ) (m : Memory)
    → append_loop (suc fuel) t rest 0 channel m ≡ some (ok, t, m)
unfolding append_loop
append_loop_done fuel t rest channel m = refl

pub append_loop_pos :
    (fuel : ℕ) (t : Tx) (rest : List ℕ) (n channel : ℕ) (m : Memory)
    → 0 < fuel
    → n ≡ 0
    → append_loop fuel t rest n channel m ≡ some (ok, t, m)
append_loop_pos zero t rest n channel m pos e = absurd (omega arith)
append_loop_pos (suc fuel) t rest n channel m pos e = rw e (append_loop_done fuel t rest channel m)

pub append_loop_write :
    (fuel : ℕ) (t : Tx) (rest : List ℕ) (n channel : ℕ) (m : Memory) (w : ℕ) (ps : List Package)
    → n ≢ 0
    → add_to_last t.packages rest n channel ≡ (w, ps)
    → w ≢ 0
    → append_loop (suc fuel) t rest n channel m
      ≡ append_loop fuel (record t { packages = ps }) (drop w rest) (n - w) channel m
unfolding append_loop
append_loop_write fuel t rest n channel m w ps hn e hw = rw (==_ne n 0 hn, e, ==_ne w 0 hw) refl

pub append_loop_enqueue :
    (fuel : ℕ) (t : Tx) (rest : List ℕ) (n channel : ℕ) (m : Memory) (ps : List Package)
    → n ≢ 0
    → add_to_last t.packages rest n channel ≡ (0, ps)
    → let (status, t', m') = enqueue_new_tx_data_package (record t { packages = ps }) m in
      append_loop (suc fuel) t rest n channel m
      ≡ resume status t' m' (append_loop fuel t' rest n channel m')
unfolding append_loop
append_loop_enqueue fuel t rest n channel m ps hn e = rw (==_ne n 0 hn, e) refl

-- The queue `ps` after the loop began at `front` and a last package with payload `c`: sealed
-- packages behind `front`, and a last one; their payloads are `c` and then the message in packets.
pub record Appended (front : List Package) (c msg : List ℕ) (channel : ℕ) (ps : List Package)
    : Type 0 where
  pub extra : List Package
  pub id : ℕ
  pub content : List ℕ
  pub free : List ℕ
  pub crc : List ℕ
  pub fits : Fits data_xfer_size content free crc
  pub shape : ps ≡ snoc (front ++ extra) (pkg data_xfer_size true id content free crc)
  pub sealed : All IsSealed extra
  pub bytes : List ℕ
  pub carries : Carries channel msg bytes
  pub sent : stream extra ++ content ≡ c ++ bytes

-- How the loop ends: the message is appended, or the schedule refused memory.
pub data Looped (front : List Package) (c msg : List ℕ) (channel : ℕ) (m : Memory)
    : Option (Status × Tx × Memory) → Type 0 where
  appended :
      {r : Option (Status × Tx × Memory)} (t' : Tx) (m' : Memory)
      → r ≡ some (ok, t', m')
      → Appended front c msg channel t'.packages
      → Looped front c msg channel m r
  refusal :
      {r : Option (Status × Tx × Memory)} (t' : Tx) (m' : Memory)
      → r ≡ some (err Errno.enomem, t', m')
      → m ≢ []
      → Looped front c msg channel m r

-- A full last package is sealed and becomes part of the front.
pub Appended-sealed :
    {front : List Package} (id : ℕ) {c f k msg : List ℕ} {channel : ℕ} {ps : List Package}
    → Fits data_xfer_size c f k
    → Appended (snoc front (package_finalize (pkg data_xfer_size true id c f k))) [] msg channel ps
    → Appended front c msg channel ps
Appended-sealed {front} id {c} {f} {k} fits a = record {
  extra = package_finalize (pkg data_xfer_size true id c f k) ∷ a.extra;
  id = a.id;
  content = a.content;
  free = a.free;
  crc = a.crc;
  fits = a.fits;
  shape =
      a.shape
      ∙ ap (λ t. snoc t (pkg data_xfer_size true a.id a.content a.free a.crc))
          (append_assoc front _ a.extra);
  sealed = (record { id = id; content = c; free = f; crc = k; fits = fits; made = refl }, a.sealed);
  bytes = a.bytes;
  carries = a.carries;
  sent = rw ((finalized-IsReady id fits).1, append_assoc, a.sent) refl;
}

-- A packet was written into the last package before the rest of the message was appended.
pub Appended-part :
    {front : List Package} {c : List ℕ} (payload : List ℕ) {rest : List ℕ} {channel : ℕ}
    {ps : List Package}
    → 0 < length payload
    → length payload < 2 ^ 16
    → Appended front (c ++ encode payload channel false) rest channel ps
    → Appended front c (payload ++ rest) channel ps
Appended-part {c = c} payload {channel = channel} pos small a = record {
  extra = a.extra;
  id = a.id;
  content = a.content;
  free = a.free;
  crc = a.crc;
  fits = a.fits;
  shape = a.shape;
  sealed = a.sealed;
  bytes = encode payload channel false ++ a.bytes;
  carries = part payload pos small a.carries;
  sent = a.sent ∙ append_assoc c (encode payload channel false) a.bytes;
}

-- The whole rest of the message was written into the last package.
pub Appended-whole :
    (front : List Package) (id : ℕ) {c f k payload : List ℕ} (channel : ℕ)
    → Fits data_xfer_size (c ++ encode payload channel true) f k
    → 0 < length payload
    → length payload < 2 ^ 16
    → Appended front c payload channel
        (snoc front (pkg data_xfer_size true id (c ++ encode payload channel true) f k))
Appended-whole front id {c} {f} {k} {payload} channel fits pos small = record {
  extra = [];
  id = id;
  content = c ++ encode payload channel true;
  free = f;
  crc = k;
  fits = fits;
  shape = rw (append-nil front) refl;
  sealed = tt;
  bytes = encode payload channel true;
  carries = whole payload pos small;
  sent = refl;
}

-- A round of the loop that leads on to one for which the statement holds.
pub Looped-map :
    {front front₁ : List Package} {c c₁ msg msg₁ : List ℕ} {channel : ℕ} {m m₁ : Memory}
    {r r₁ : Option (Status × Tx × Memory)}
    → r ≡ r₁
    → (m ≡ [] → m₁ ≡ [])
    → ((ps : List Package) → Appended front₁ c₁ msg₁ channel ps → Appended front c msg channel ps)
    → Looped front₁ c₁ msg₁ channel m₁ r₁
    → Looped front c msg channel m r
Looped-map e keep f (appended t' m' e' a) = appended t' m' (e ∙ e') (f t'.packages a)
Looped-map e keep f (refusal t' m' e' ne) = refusal t' m' (e ∙ e') (λ z. ne (keep z))
