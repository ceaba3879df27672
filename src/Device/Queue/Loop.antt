-- ===== src/Device/Queue/Loop.antt =====
-- The loop of `__iccom_queue_append_message`: with two rounds for each byte it ends, and either the
-- message is appended or memory was refused.
use iccom_utils.Base.{ℕ, zero, suc, ◌+◌, ◌-◌, ◌*◌, ◌≤◌, ◌<◌, ◌≡◌, refl, arith, ap, sym, ◌∙◌}
use iccom_utils.Base.{List, [], ◌++◌, true, false, Option, length, take, drop}
use iccom_utils.Base.{inl, inr, leb, if◌then◌else◌, length-take, length-drop, Bool-cases}
use iccom_utils.Base.{take-append-drop, ◌==◌, take_all, leb→le, leb→gt, ==_iff, ==_false, subst}
use iccom_utils.Kernel.{Status, Memory}
use iccom_utils.Package.{Package, data_xfer_size, package_finalize}
use iccom_utils.Package.Layout.{Fits, pkg}
use iccom_utils.Package.Fresh.{fresh_free, fresh_crc, Fits-fresh}
use iccom_utils.Packet.Codec.{encode}
use iccom_utils.Packet.Add.{taken, extended, add_packet-pkg, add_packet-pkg_full, Fits-extended}
use iccom_utils.Device.{Tx}
use iccom_utils.Device.Queue.{append_loop, enqueue_new_tx_data_package, resume}
use iccom_utils.Device.Queue.Enqueue.{
  snoc, enqueue_new-Enqueued, Enqueued, Enqueued-cases, enqueue_new-nil,
}
use iccom_utils.Device.Queue.Enqueue.{add_to_last-snoc, update_last-snoc}
use iccom_utils.Device.Queue.Append.{append_loop_pos, append_loop_write, append_loop_enqueue}
use iccom_utils.Device.Queue.Append.{Looped, appended, refusal, Looped-map}
use iccom_utils.Device.Queue.Append.{Appended, Appended-sealed, Appended-part, Appended-whole}

-- The statement for a given fuel: two rounds for each byte, and one more if the last package is
-- full.
abbrev pub EndsIn : ℕ → Type 0
EndsIn fuel =
    (t : Tx) (front : List Package) (id : ℕ) (c f k msg : List ℕ) (n channel : ℕ) (m : Memory)
    → Fits data_xfer_size c f k
    → t.packages ≡ snoc front (pkg data_xfer_size true id c f k)
    → length msg ≡ n
    → 0 < n
    → 2 * n + (if leb (length f) 4 then 1 else 0) < fuel
    → Looped front c msg channel m (append_loop fuel t msg n channel m)

pub cost : (free : ℕ) → (if leb free 4 then 1 else 0) ≤ 1
cost free = ground arith

module _ (fuel : ℕ) (next : EndsIn fuel) (t : Tx) (front : List Package) (id : ℕ)
    (c f k msg : List ℕ) (n channel : ℕ) (m : Memory) (fits : Fits data_xfer_size c f k)
    (shape : t.packages ≡ snoc front (pkg data_xfer_size true id c f k)) (len : length msg ≡ n)
    (pos : 0 < n) where
  -- A full last package: a new one is enqueued.
  full_round :
      length f ≤ 4
      → 2 * n < fuel
      → Looped front c msg channel m (append_loop (suc fuel) t msg n channel m)
  full_round full enough = elim (Enqueued-cases enqueued) [
    | inl (id', fresh, len', e, e') ↦
        Looped-map (step ∙ ap (λ s. resume s t' m' again) e) nil (λ ps. Appended-sealed id fits)
          (next t' (snoc front (package_finalize p)) id' [] (fresh_free fresh) (fresh_crc fresh) msg
            n channel m' (Fits-fresh fresh len') e' len pos (fresh_cost fresh len'))
    | inr e ↦
        refusal t' m' (step ∙ ap (λ s. resume s t' m' again) e)
          (λ z. cc ((enqueue_new-nil s).0, z, e))
  ]
    where
      p : Package
      p = pkg data_xfer_size true id c f k

      s : Tx
      s = record t { packages = snoc front p }

      t' : Tx
      t' = (enqueue_new_tx_data_package s m).1

      m' : Memory
      m' = (enqueue_new_tx_data_package s m).2

      again : Option (Status × Tx × Memory)
      again = append_loop fuel t' msg n channel m'

      step :
          append_loop (suc fuel) t msg n channel m
          ≡ resume (enqueue_new_tx_data_package s m).0 t' m' again
      step = append_loop_enqueue fuel t msg n channel m (snoc front p) (omega arith) (
          rw
            (
              shape,
              add_to_last-snoc front p msg n channel,
              add_packet-pkg_full true id msg n channel fits full,
            )
            refl)

      enqueued :
          Enqueued (snoc front (package_finalize p)) (enqueue_new_tx_data_package s m).0 t'.packages
      enqueued =
          enqueue_new-Enqueued s (snoc front (package_finalize p)) m
            (update_last-snoc package_finalize front p)

      fresh_cost :
          (fresh : List ℕ)
          → length fresh ≡ 256
          → 2 * n + (if leb (length (fresh_free fresh)) 4 then 1 else 0) < fuel
      fresh_cost fresh len' =
          let l : length (fresh_free fresh) ≡ 249 = omega (arith, (Fits-fresh fresh len').sizes) in
          rw l (omega arith)

      nil : m ≡ [] → m' ≡ []
      nil z = rw z (enqueue_new-nil s).1

  -- Room in the last package: as much as fits is written.
  room_round :
      4 < length f
      → 2 * n ≤ fuel
      → Looped front c msg channel m (append_loop (suc fuel) t msg n channel m)
  room_round room enough = elim (Bool-cases (w == n)) [
    | inl all ↦
        let fin : extended c msg n (length f) channel ≡ c ++ encode msg channel true =
          rw (all, take_all msg w (omega (arith, (==_iff w n).0 all, len))) refl in
        appended (record t { packages = ps }) m
          (step
            ∙ append_loop_pos fuel _ (drop w msg) (n - w) channel m (omega arith)
                (omega (arith, (==_iff w n).0 all)))
          (subst
            (λ x.
              Appended front c msg channel
                (snoc front (pkg data_xfer_size true id x (drop (4 + w) f) k)))
            (sym fin)
            (Appended-whole front id channel
              (subst (λ x. Fits data_xfer_size x (drop (4 + w) f) k) fin fits')
              (omega (arith, (==_iff w n).0 all)) (omega (arith, (==_iff w n).0 all, fits.sizes))))
    | inr some_left ↦
        let fin : extended c msg n (length f) channel ≡ c ++ encode (take w msg) channel false =
          rw some_left refl in
        Looped-map step (λ z. z)
          (λ qs a.
            subst (λ x. Appended front c x channel qs) (take-append-drop w msg)
              (Appended-part (take w msg) (omega (arith, length-take w msg))
                (omega (arith, length-take w msg, fits.sizes))
                (subst (λ x. Appended front x (drop w msg) channel qs) fin a)))
          (next (record t { packages = ps }) front id (extended c msg n (length f) channel)
            (drop (4 + w) f) k (drop w msg) (n - w) channel m fits' refl
            (omega (arith, length-drop w msg)) (omega (arith, ==_false w n some_left))
            (omega (arith, cost (length (drop (4 + w) f)))))
  ]
    where
      w : ℕ
      w = taken (length f) n

      ps : List Package
      ps =
          snoc front
            (pkg data_xfer_size true id (extended c msg n (length f) channel) (drop (4 + w) f) k)

      fits' : Fits data_xfer_size (extended c msg n (length f) channel) (drop (4 + w) f) k
      fits' = Fits-extended msg n channel fits room len

      step :
          append_loop (suc fuel) t msg n channel m
          ≡ append_loop fuel (record t { packages = ps }) (drop w msg) (n - w) channel m
      step =
          append_loop_write fuel t msg n channel m w ps (omega arith)
            (rw
              (
                shape,
                add_to_last-snoc front _ msg n channel,
                add_packet-pkg true id msg n channel fits room len,
              )
              refl)
            (omega arith)

pub append_loop-Looped : (fuel : ℕ) → EndsIn fuel
append_loop-Looped zero t front id c f k msg n channel m fits shape len pos enough =
    absurd (omega arith)
append_loop-Looped (suc fuel) t front id c f k msg n channel m fits shape len pos enough =
    elim (Bool-cases (leb (length f) 4)) [
      | inl full ↦
          full_round fuel (append_loop-Looped fuel) t front id c f k msg n channel m fits shape len
            pos (leb→le _ _ full) (omega (arith, (rw full at enough)))
      | inr room ↦
          room_round fuel (append_loop-Looped fuel) t front id c f k msg n channel m fits shape len
            pos (leb→gt _ _ room) (omega (arith, (rw room at enough)))
    ]
