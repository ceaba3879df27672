-- ===== src/Socket/Lifecycle/Closed.antt =====
-- What closing leaves of a device.
use iccom_utils.Base.{◌≡◌, refl, sym, ◌∙◌, ◌⊎◌, inl, inr, false, none}
use iccom_utils.Base.{Bool-cases}
use iccom_utils.Device.Api.{no_private, no_entries, is_running}
use iccom_utils.Device.Api.Binded.Init.{IsOpen, iccom_close_binded_lem, is_running_lem}
use iccom_utils.Socket.{SocketDevice}
use iccom_utils.Socket.Lifecycle.{
  device_close, protocol_device_close, unreg_socket_family, procfs_close, loopback_ctl_close,
}

-- Nothing is open.
abbrev pub IsClosed : SocketDevice → Type 0
IsClosed d =
    (d.socket ≡ false)
    × (d.proc_root ≡ false)
    × (d.loopback_ctl_file ≡ false)
    × (d.lback_map_rule ≡ none)
    × (is_running d.iccom ≡ false)
    × (d.transport ≡ false)

-- The core is not in the middle of being closed, and the transport layer is only initialised where
-- the core is.
abbrev pub IsSteady : SocketDevice → Type 0
IsSteady d = IsOpen d.iccom ⊎ ((d.iccom ≡ no_private) × (d.transport ≡ false))

abbrev SameCore : SocketDevice → SocketDevice → Type 0
SameCore d d' =
    (d'.iccom ≡ d.iccom) × (d'.transport ≡ d.transport) × (d'.iccom_entries ≡ d.iccom_entries)

-- The entries of the core in procfs: closed with it, or as before where the core is missing.
abbrev pub EntriesAfter : SocketDevice → SocketDevice → Type 0
EntriesAfter d d' =
    (d'.iccom_entries ≡ no_entries)
    ⊎ ((d.iccom ≡ no_private) × (d'.iccom_entries ≡ d.iccom_entries))

EntriesAfter-same :
    (d₀ d d' : SocketDevice) → SameCore d₀ d → EntriesAfter d d' → EntriesAfter d₀ d'
EntriesAfter-same d₀ d d' (same, _, kept) (inl none_left) = inl none_left
EntriesAfter-same d₀ d d' (same, _, kept) (inr (gone, as_before)) =
    inr (sym same ∙ gone, as_before ∙ kept)

-- The last step of closing.
protocol_device_close_lem :
    (d : SocketDevice)
    → IsSteady d
    → d.socket ≡ false
    → d.proc_root ≡ false
    → d.loopback_ctl_file ≡ false
    → d.lback_map_rule ≡ none
    → IsClosed (protocol_device_close d) × EntriesAfter d (protocol_device_close d)
unfolding protocol_device_close is_running
protocol_device_close_lem d (inl opened) a b c e =
    simp
      (
        is_running_lem d.iccom opened,
        iccom_close_binded_lem d.iccom d.transport d.iccom_entries opened,
      )
      ((a, b, c, e, refl, refl), inl refl)
protocol_device_close_lem d (inr (gone, below)) a b c e =
    simp gone ((a, b, c, e, refl, below), inr (refl, refl))

IsSteady-same : (d d' : SocketDevice) → SameCore d d' → IsSteady d → IsSteady d'
IsSteady-same d d' (same, below, _) (inl (p, e, idle)) = inl (p, same ∙ e, idle)
IsSteady-same d d' (same, below, _) (inr (gone, shut)) = inr (same ∙ gone, below ∙ shut)

unreg_lem :
    (d : SocketDevice)
    → let d' = unreg_socket_family d in
      (d'.socket ≡ false)
      × (d'.proc_root ≡ d.proc_root)
      × (d'.loopback_ctl_file ≡ d.loopback_ctl_file)
      × (d'.lback_map_rule ≡ d.lback_map_rule)
      × SameCore d d'
unfolding unreg_socket_family
unreg_lem d = elim (Bool-cases d.socket) [
  | inl e ↦ simp e (refl, refl, refl, refl, (refl, refl, refl))
  | inr e ↦ simp e (refl, refl, refl, refl, (refl, refl, refl))
]

procfs_close_lem :
    (d : SocketDevice)
    → let d' = procfs_close d in
      (d'.proc_root ≡ false)
      × (d'.loopback_ctl_file ≡ d.loopback_ctl_file)
      × (d'.lback_map_rule ≡ d.lback_map_rule)
      × SameCore d d'
unfolding procfs_close
procfs_close_lem d = elim (Bool-cases d.proc_root) [
  | inl e ↦ simp e (refl, refl, refl, (refl, refl, refl))
  | inr e ↦ simp e (refl, refl, refl, (refl, refl, refl))
]

-- Closing a socket device closes its socket, its procfs entries, its rule, the core and the
-- transport layer, provided that the core is open and not already being closed, or is missing and
-- the transport layer is not open. The entries of the core in procfs are gone then, or the core
-- was missing and they are as before.
pub device_close_lem :
    (d : SocketDevice) → IsSteady d → IsClosed (device_close d) × EntriesAfter d (device_close d)
unfolding device_close loopback_ctl_close
device_close_lem d steady =
    let d₁ = loopback_ctl_close d in
    let d₂ = procfs_close d₁ in
    let d₃ = unreg_socket_family d₂ in
    let (root, file, rule, same) = procfs_close_lem d₁ in
    let (socket, root', file', rule', same') = unreg_lem d₂ in
    let (closed, entries) =
      protocol_device_close_lem d₃ (IsSteady-same d₂ d₃ same' (IsSteady-same d₁ d₂ same steady))
        socket (root' ∙ root) (file' ∙ file) (rule' ∙ rule) in
    (
      closed,
      EntriesAfter-same d₁ d₂ (device_close d) same
          (EntriesAfter-same d₂ d₃ (device_close d) same' entries),
    )

-- Where the core is missing.
pub close_missing :
    (d : SocketDevice)
    → d.iccom ≡ no_private
    → d.transport ≡ false
    → IsClosed (device_close d) × ((device_close d).iccom_entries ≡ d.iccom_entries)
unfolding device_close loopback_ctl_close protocol_device_close is_running
close_missing d gone below =
    let d₁ = loopback_ctl_close d in
    let d₂ = procfs_close d₁ in
    let (_, _, _, (same, _, kept)) = procfs_close_lem d₁ in
    let (_, _, _, _, (same', _, kept')) = unreg_lem d₂ in
    ((device_close_lem d (inr (gone, below))).0, rw (same' ∙ same ∙ gone) (kept' ∙ kept))
