-- ===== src/Socket/Control/Update.antt =====
-- Writing the control file: all outcomes.
use iccom_utils.Base.{ℕ, ◌≤◌, ◌≡◌, refl, ◌⊎◌, inl, inr, arith, List, Bool, not, ◌||◌, Option, some}
use iccom_utils.Base.{Bool-cases, ◌==◌, ltb, take}
use iccom_utils.Kernel.{Errno, ok}
use iccom_utils.Socket.{Rule, SocketDevice, lback_rule_verify}
use iccom_utils.Socket.Parse.{parse_lback_string}
use iccom_utils.Socket.Parse.Verified.{parse_lback_string_lem}
use iccom_utils.Socket.Control.{
  Size, bytes, failed, lback_rule_write, install_rule, write_buffer_size,
}

-- A rule that passes the verification is installed.
abbrev pub Installed :
    (List ℕ → Option ℕ) → SocketDevice → List ℕ → ℕ → ℕ → Rule → Size × SocketDevice → Type 0
Installed kstrtol d ubuf count pos stale result =
    (rule : Rule) × (result ≡ (bytes count, record d { lback_map_rule = some rule }))
    × (parse_lback_string kstrtol (take count ubuf) stale ≡ some rule)
    × (lback_rule_verify rule ≡ ok)
    × (pos ≡ 0)
    × (count ≤ write_buffer_size)

-- Writing the control file either returns the size, and then the text of at most 64 bytes at
-- position 0 was parsed to a rule that passes the verification, and exactly this rule is
-- installed; or it returns an error and changes nothing of the device.
pub lback_rule_write_lem :
    (kstrtol : List ℕ → Option ℕ) (d : SocketDevice) (ubuf : List ℕ) (count pos : ℕ)
    (buffer_granted : Bool) (not_copied : ℕ) (stale : Rule) (rule_granted : Bool)
    → let result =
        lback_rule_write kstrtol d ubuf count pos buffer_granted not_copied stale rule_granted in
      Installed kstrtol d ubuf count pos stale result ⊎ ((e : Errno) × (result ≡ (failed e, d)))
unfolding lback_rule_write install_rule
lback_rule_write_lem kstrtol d ubuf count pos bg nc stale rg =
    elim (Bool-cases (not (pos == 0) || ltb write_buffer_size count)) [
      | inl refused ↦ inr (Errno.efault, rw refused refl)
      | inr at_once ↦ elim (Bool-cases bg) [
        | inr denied ↦ inr (Errno.enomem, rw (at_once, denied) refl)
        | inl held ↦ elim (Bool-cases (nc == 0)) [
          | inr short ↦ inr (Errno.eio, rw (at_once, held, short) refl)
          | inl copied ↦ elim (parse_lback_string_lem kstrtol (take count ubuf) stale) [
            | inl bad ↦ inr (Errno.einval, rw (at_once, held, copied, bad) refl)
            | inr (rule, parsed, good) ↦ elim (Bool-cases rg) [
              | inr denied ↦ inr (Errno.enomem, rw (at_once, held, copied, parsed, denied) refl)
              | inl kept ↦ inl (
                rule,
                rw (at_once, held, copied, parsed, kept) refl,
                parsed,
                good,
                ground arith,
                ground arith,
              )
            ]
          ]
        ]
      ]
    ]
