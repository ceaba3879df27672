-- ===== src/Device/Queue/Chain/Ends.antt =====
-- Appending ends, whatever the queue holds: after a round that writes nothing there is a new
-- package, and a round on a new package writes at least a byte.
use iccom_utils.Base.{
  ℕ, zero, suc, ◌+◌, ◌-◌, ◌*◌, ◌≤◌, ◌<◌, ◌≡◌, ◌⊎◌, inl, inr, refl, ap, arith, List, [], true,
  Option, some, ◌==◌, length, drop, if_split,
}
use iccom_utils.Kernel.{Status, ok, err, Memory}
use iccom_utils.Package.{Package, package_finalize, data_xfer_size}
use iccom_utils.Package.Layout.{Fits, pkg}
use iccom_utils.Package.Fresh.{fresh_free, fresh_crc, Fits-fresh}
use iccom_utils.Packet.Add.{add_packet-pkg_some}
use iccom_utils.Device.{Tx}
use iccom_utils.Device.Queue.{
  append_loop, append_fuel, add_to_last, enqueue_new_tx_data_package, finish, resume,
  queue_append_message, have_multiple_packages, update_last,
}
use iccom_utils.Device.Queue.Enqueue.{snoc, add_to_last-snoc, enqueue_new-Enqueued, Enqueued-cases}

-- The fuel is enough.
abbrev pub Ends : Option (Status × Tx × Memory) → Type 0
Ends o = (r : Status × Tx × Memory) × (o ≡ some r)

resume-Ends :
    (status : Status) (t : Tx) (m : Memory) (o : Option (Status × Tx × Memory))
    → (status ≡ ok → Ends o)
    → Ends (resume status t m o)
resume-Ends ok t m o h = h refl
resume-Ends (err e) t m o h = ((err e, t, m), refl)

-- The last package has room for a header and a byte.
IsRoomy : Tx → Type 0
IsRoomy t =
    (front : List Package) × (id : ℕ) × (c : List ℕ) × (f : List ℕ) × (k : List ℕ) × Fits
      data_xfer_size c f k
    × (4 < length f)
    × (t.packages ≡ snoc front (pkg data_xfer_size true id c f k))

enqueue_new-IsRoomy :
    (t : Tx) (m : Memory)
    → (enqueue_new_tx_data_package t m).0 ≡ ok
    → IsRoomy (enqueue_new_tx_data_package t m).1
unfolding IsRoomy
enqueue_new-IsRoomy t m granted =
    let front = update_last package_finalize t.packages in
    elim (Enqueued-cases (enqueue_new-Enqueued t front m refl)) [
      | inr refusal ↦ absurd (cc (granted, refusal))
      | inl (id, fresh, len, _, e) ↦
          let fits = Fits-fresh fresh len in
          (
            front,
            id,
            [],
            fresh_free fresh,
            fresh_crc fresh,
            fits,
            omega (arith, fits.sizes, fits.crc),
            e,
          )
    ]

roomy_written :
    (t : Tx) (rest : List ℕ) (n channel : ℕ)
    → IsRoomy t
    → 0 < n
    → 0 < (add_to_last t.packages rest n channel).0
unfolding IsRoomy
roomy_written t rest n channel (front, id, c, f, k, fits, room, e) pos =
    rw (e, add_to_last-snoc front (pkg data_xfer_size true id c f k) rest n channel)
      (add_packet-pkg_some true id rest n channel fits room pos)

-- Two rounds for each byte, one more, and one more if the last package may have no room.
append_loop-Ends :
    (fuel : ℕ) (t : Tx) (rest : List ℕ) (n channel : ℕ) (m : Memory)
    → (2 * n + 2 ≤ fuel) ⊎ (IsRoomy t × (2 * n + 1 ≤ fuel))
    → Ends (append_loop fuel t rest n channel m)
unfolding append_loop
append_loop-Ends zero t rest n channel m (inl enough) = absurd (omega arith)
append_loop-Ends zero t rest n channel m (inr (roomy, enough)) = absurd (omega arith)
append_loop-Ends (suc fuel) t rest n channel m enough =
    let (written, packages) = add_to_last t.packages rest n channel in
    let t' = record t { packages = packages } in
    let r = enqueue_new_tx_data_package t' m in
    if_split Ends (n == 0) (λ all. ((ok, t, m), refl))
      (λ more.
        let pos : 0 < n = ground arith in
        if_split Ends (written == 0)
          (λ full. elim enough [
            | inl plenty ↦ resume-Ends r.0 r.1 r.2 _ (λ granted.
                append_loop-Ends fuel r.1 rest n channel r.2
                  (inr (enqueue_new-IsRoomy t' m granted, omega arith)))
            | inr (roomy, _) ↦
                let some_bytes = roomy_written t rest n channel roomy pos in absurd (ground arith)
          ])
          (λ some_bytes.
            append_loop-Ends fuel t' (drop written rest) (n - written) channel m
              (inl (elim enough [ inl plenty ↦ ground arith | inr (_, plenty) ↦ ground arith ]))))

finish-Ends : (o : Option (Status × Tx × Memory)) → Ends o → Ends (finish o)
unfolding finish
finish-Ends o ((ok, t, m), e) = (_, ap finish e)
finish-Ends o ((err x, t, m), e) = (_, ap finish e)

-- The fuel of the appending is enough for every queue, message and memory.
pub queue_append_message-Ends :
    (t : Tx) (content : List ℕ) (length channel : ℕ) (m : Memory)
    → Ends (queue_append_message t content length channel m)
unfolding queue_append_message
queue_append_message-Ends t content length channel m =
    let r = enqueue_new_tx_data_package t m in
    let loop = λ (t : Tx) (m : Memory).
      finish-Ends _
        (append_loop-Ends (append_fuel length) t content length channel m (inl (omega arith))) in
    if_split Ends (have_multiple_packages t) (λ several. loop t m)
      (λ one. resume-Ends r.0 r.1 r.2 _ (λ granted. loop r.1 r.2))
