-- ===== src/Symspi/Xfer/Copy.antt =====
-- The copy of a transfer that the device starts with.
use iccom_utils.Base.{
  ℕ, ◌≡◌, ◌≢◌, refl, ap, sym, ◌∙◌, ◌⊎◌, inl, inr, List, ==_ne, ==_iff, length, overlay, take_all,
}
use iccom_utils.Symspi.{SpiError, success, failure, live, SpiXfer}
use iccom_utils.Symspi.Xfer.{
  Block, content, do_resize_xfer, xfer_init_empty, copied, xfer_init_copy,
}
use iccom_utils.Symspi.Xfer.Replace.{IsXfer, do_resize_xfer-cases, overlay_all}

-- A copy has the content, the size and the callback for the end of the transfer, and no callback
-- for its failure.
abbrev pub Copied : SpiXfer → List ℕ → SpiXfer → Type 0
Copied source bytes target =
    IsXfer target
    × (target.size_bytes ≡ source.size_bytes)
    × (content target.data_tx ≡ bytes)
    × (target.done_callback ≡ source.done_callback)
    × (target.consumer_data ≡ source.consumer_data)

-- The copy into buffers of the right size.
copied_all :
    (target : SpiXfer) (n c : ℕ) (bytes : List ℕ)
    → IsXfer target
    → target.size_bytes ≡ n
    → length bytes ≡ n
    → (a : ℕ) × (b : ℕ) × (rx : List ℕ) × (copied target.data_tx (live c bytes) n ≡ live a bytes)
      × (target.data_rx_buf ≡ live b rx)
      × (length rx ≡ n)
unfolding copied content
copied_all target n c bytes (a, tx, b, rx, at_tx, at_rx, len, len', ne) size long = (
  a,
  b,
  rx,
  ap (λ p. copied p (live c bytes) n) at_tx
      ∙ ap (live a) (
          ap (overlay tx) (take_all bytes n (sym long))
          ∙ overlay_all tx bytes (len ∙ size ∙ sym long)),
  at_rx,
  len' ∙ size,
)

-- The source has as many bytes as its size says, and at least one. Then the copy of
-- symspi_xfer_init_copy succeeds with two buffers of that size, the same content to send, the same
-- callback for the end of a transfer and the same consumer's data; or it returns that there is no
-- memory, and the size of the target is 0.
pub xfer_init_copy_lem :
    (source : SpiXfer) (tx rx : Block) (c : ℕ) (bytes : List ℕ)
    → source.data_tx ≡ live c bytes
    → length bytes ≡ source.size_bytes
    → source.size_bytes ≢ 0
    → let (result, target) = xfer_init_copy source tx rx in
      ((result ≡ success) × Copied source bytes target)
      ⊎ ((result ≡ failure SpiError.no_memory) × (target.size_bytes ≡ 0))
unfolding xfer_init_copy xfer_init_empty content
xfer_init_copy_lem source tx rx c bytes at_source long some_size =
    let n = source.size_bytes in
    let target = do_resize_xfer xfer_init_empty n tx rx in
    elim (do_resize_xfer-cases xfer_init_empty n tx rx some_size
      (==_ne 0 n (λ e. some_size (sym e)))) [
        | inl (good, size) ↦
            let ne = ==_ne target.size_bytes 0 (λ e. some_size (sym size ∙ e)) in
            let (a, b, rx', at_tx, at_rx, len) = copied_all target n c bytes good size long in
            let at_tx' = ap (λ p. copied target.data_tx p n) at_source ∙ at_tx in
            simp ne (
              inl (
                refl,
                (
                  (
                    a,
                    bytes,
                    b,
                    rx',
                    at_tx',
                    at_rx,
                    long ∙ sym size,
                    len ∙ sym size,
                    (λ e. some_size (sym size ∙ e)),
                  ),
                  size,
                  ap content at_tx',
                  refl,
                  refl,
                ),
              ))
        | inr lost ↦
            let empty = (==_iff target.size_bytes 0).1 lost in simp empty (inr (refl, lost))
      ]
