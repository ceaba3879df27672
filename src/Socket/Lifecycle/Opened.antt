-- ===== src/Socket/Lifecycle/Opened.antt =====
-- What opening leads to: a device that is ready, or one that is closed again.
use iccom_utils.Base.{ℕ, ◌≡◌, refl, ◌∙◌, ◌⊎◌, inl, inr, true, false, some}
use iccom_utils.Base.{Bool-cases}
use iccom_utils.Kernel.{Status, ok, err, Errno}
use iccom_utils.Storage.{any_channel_value}
use iccom_utils.Device.Api.{Handle, no_private, Entries, no_entries, api_get_channel_callback}
use iccom_utils.Device.Api.Binded.Init.{IsOpen, iccom_init_binded_lem, hook_all, left_entries}
use iccom_utils.Socket.{SocketDevice, outside, match_channel2lbackrule, match_rule}
use iccom_utils.Socket.Lifecycle.{
  device_close, device_init, Opening, loopback_ctl_init, procfs_init, Creation, created, error,
  null, hook, hooked, after_protocol, after_socket, reg_socket_family, protocol_device_init, zeroed,
}
use iccom_utils.Socket.Lifecycle.Closed.{IsClosed, close_missing}

-- What the core leaves in procfs, also where its initialisation fails.
pub left_behind : Opening → Creation → Entries
left_behind o created = left_entries o.surroundings o.memory
left_behind o (error e) = no_entries
left_behind o null = no_entries

-- What is open in a device that is ready.
abbrev pub IsOpened : Opening → SocketDevice → Type 0
IsOpened o d =
    (d.socket ≡ true)
    × (d.transport ≡ true)
    × (d.exiting ≡ false)
    × IsOpen d.iccom
    × (api_get_channel_callback d.iccom any_channel_value ≡ (ok, some o.callback))
    × ((channel : ℕ) → match_channel2lbackrule d.lback_map_rule channel ≡ outside)

-- The procfs entries.
controlled :
    (o : Opening) (d : SocketDevice)
    → let d' = (loopback_ctl_init (procfs_init d o.root_made).1 o.rule_granted o.file_made).1 in
      (d'.socket ≡ d.socket)
      × (d'.transport ≡ d.transport)
      × (d'.exiting ≡ d.exiting)
      × (d'.iccom ≡ d.iccom)
      × (d'.iccom_entries ≡ d.iccom_entries)
      × ((channel : ℕ) → match_channel2lbackrule d'.lback_map_rule channel ≡ outside)
unfolding loopback_ctl_init procfs_init match_channel2lbackrule match_rule
controlled o d = elim (Bool-cases o.rule_granted) [
  | inr denied ↦ simp denied (refl, refl, refl, refl, refl, λ channel. refl)
  | inl granted ↦ elim (Bool-cases o.root_made) [
    | inr rootless ↦ simp (granted, rootless) (refl, refl, refl, refl, refl, λ channel. refl)
    | inl rooted ↦ elim (Bool-cases o.file_made) [
      | inr failed ↦ simp (granted, rooted, failed) (refl, refl, refl, refl, refl, λ channel. refl)
      | inl made ↦ simp (granted, rooted, made) (refl, refl, refl, refl, refl, λ channel. refl)
    ]
  ]
]

abbrev Outcome : Opening → Creation → Status × SocketDevice → Type 0
Outcome o c r =
    (((r.0 ≡ ok) × IsOpened o r.1) ⊎ ((e : Errno) × (r.0 ≡ err e) × IsClosed r.1))
    × (r.1.iccom_entries ≡ left_behind o c)

-- What follows the binding of the core.
after_binding :
    (o : Opening) (d : SocketDevice) (h : Handle)
    → d.socket ≡ true
    → d.exiting ≡ false
    → IsOpen h
    → Outcome o created (
        after_protocol o
          (hook d o.callback o.consumer (ok, h, true, left_entries o.surroundings o.memory)))
unfolding after_protocol hook hooked left_behind
after_binding o d h listening going opened =
    let (h', e, opened', asked) = hook_all h o.callback o.consumer opened in
    let hooked_device = record d {
      transport = true;
      iccom = h';
      iccom_entries = left_entries o.surroundings o.memory;
    } in
    let (a, b, c, core, entries, quiet) = controlled o hooked_device in
    rw e (inl (refl, (a ∙ listening, b, c ∙ going, rw core opened', rw core asked, quiet)), entries)

-- A failure before the core is there.
without_core :
    (o : Opening) (c : Creation) (e : Errno) (d : SocketDevice)
    → d.iccom ≡ no_private
    → d.transport ≡ false
    → d.iccom_entries ≡ left_behind o c
    → Outcome o c (err e, device_close d)
without_core o c e d gone below entries =
    let (closed, kept) = close_missing d gone below in (inr (e, refl, closed), kept ∙ entries)

opening : (o : Opening) (c : Creation) → Outcome o c (after_socket o (reg_socket_family zeroed c))
unfolding after_socket reg_socket_family after_protocol protocol_device_init hook left_behind
opening o (error e) =
    without_core o (error e) e (reg_socket_family zeroed (error e)).1 refl refl refl
opening o null = without_core o null Errno.enodev (reg_socket_family zeroed null).1 refl refl refl
opening o created = elim (iccom_init_binded_lem o.surroundings o.memory) [
  | inl (h, e, opened) ↦
      rw e (after_binding o (reg_socket_family zeroed created).1 h refl refl opened)
  | inr (n, e) ↦ rw e (
      without_core o created n
        (record (reg_socket_family zeroed created).1 {
          iccom_entries = left_entries o.surroundings o.memory;
        })
        refl refl refl)
]

-- Opening the socket device either succeeds: the socket, the core and the transport layer are
-- open, the callback for all channels is installed, and no channel is looped; or it returns an
-- error, and then the socket, the procfs folder and file of the socket device, its rule, the core
-- and the transport layer are not there. In both cases the entries of the core in procfs are those
-- that iccom_init made: none if the kernel socket was not created, if a pointer was missing or if
-- there was no memory for the private part, and otherwise the ones that procfs granted, also after
-- an error.
pub device_init_lem :
    (o : Opening)
    → let (status, d) = device_init o in
      (((status ≡ ok) × IsOpened o d) ⊎ ((e : Errno) × (status ≡ err e) × IsClosed d))
      × (d.iccom_entries ≡ left_behind o o.creation)
unfolding device_init
device_init_lem o = opening o o.creation
