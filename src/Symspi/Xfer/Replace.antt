-- ===== src/Symspi/Xfer/Replace.antt =====
-- Replacing the current transfer.
use iccom_utils.Base.{
  ℕ, ◌≡◌, ◌≢◌, refl, ap, sym, ◌∙◌, ◌⊎◌, inl, inr, arith, List, [], ◌∷◌, ◌++◌, Bool, false, not,
  ◌&&◌, Bool-cases,
}
use iccom_utils.Base.{◌==◌, ==_ne, ==_iff, ==_false, length, take, overlay, take_all}
use iccom_utils.Kernel.{fit, length-fit}
use iccom_utils.Symspi.Xfer.Overlap.{Shares, regions_overlap_none}
use iccom_utils.Symspi.{SpiError, success, failure, live, SpiXfer, SymspiDev}
use iccom_utils.Symspi.Xfer.{
  Block, refused, at, content, address_of, krealloc, freed, resized_rx, resized_tx, do_resize_xfer,
  copied, filled, regions_overlap, replace_xfer, update_native, is_xfer,
}

-- A transfer with two buffers of its size.
abbrev pub IsXfer : SpiXfer → Type 0
IsXfer xfer =
    (a : ℕ) × (tx : List ℕ) × (b : ℕ) × (rx : List ℕ) × (xfer.data_tx ≡ live a tx)
    × (xfer.data_rx_buf ≡ live b rx)
    × (length tx ≡ xfer.size_bytes)
    × (length rx ≡ xfer.size_bytes)
    × (xfer.size_bytes ≢ 0)

resized_rx-cases :
    (xfer : SpiXfer) (a n : ℕ) (tx : List ℕ) (rx : Block)
    → n ≢ 0
    → xfer.size_bytes ≡ n
    → xfer.data_tx ≡ live a tx
    → length tx ≡ n
    → let xfer' = resized_rx xfer n rx in
      (IsXfer xfer' × (xfer'.size_bytes ≡ n)) ⊎ (xfer'.size_bytes ≡ 0)
unfolding resized_rx krealloc freed
resized_rx-cases xfer a n tx refused ne size shape len = inr refl
resized_rx-cases xfer a n tx (at b junk) ne size shape len = inl (
  (
    a,
    tx,
    b,
    fit n (content xfer.data_rx_buf ++ junk),
    shape,
    refl,
    len ∙ sym size,
    length-fit n (content xfer.data_rx_buf ++ junk) ∙ sym size,
    (λ e. ne (sym size ∙ e)),
  ),
  size,
)

resized_tx-cases :
    (xfer : SpiXfer) (n : ℕ) (tx rx : Block)
    → n ≢ 0
    → xfer.size_bytes ≡ n
    → let xfer' = resized_tx xfer n tx rx in
      (IsXfer xfer' × (xfer'.size_bytes ≡ n)) ⊎ (xfer'.size_bytes ≡ 0)
unfolding resized_tx krealloc freed
resized_tx-cases xfer n refused rx ne size = inr refl
resized_tx-cases xfer n (at a junk) rx ne size =
    resized_rx-cases (record xfer { data_tx = live a (fit n (content xfer.data_tx ++ junk)) }) a n
      (fit n (content xfer.data_tx ++ junk)) rx ne size refl
      (length-fit n (content xfer.data_tx ++ junk))

-- A resizing to another size that is not 0.
pub do_resize_xfer-cases :
    (xfer : SpiXfer) (n : ℕ) (tx rx : Block)
    → n ≢ 0
    → xfer.size_bytes == n ≡ false
    → let xfer' = do_resize_xfer xfer n tx rx in
      (IsXfer xfer' × (xfer'.size_bytes ≡ n)) ⊎ (xfer'.size_bytes ≡ 0)
unfolding do_resize_xfer
do_resize_xfer-cases xfer n tx rx ne other =
    simp (other, ==_ne n 0 ne) (resized_tx-cases (record xfer { size_bytes = n }) n tx rx ne refl)

pub overlay_all : (xs ys : List ℕ) → length xs ≡ length ys → overlay xs ys ≡ ys
overlay_all [] [] e = refl
overlay_all [] (y ∷ ys) e = absurd (omega arith)
overlay_all (x ∷ xs) [] e = absurd (omega arith)
overlay_all (x ∷ xs) (y ∷ ys) e = ap (λ t. y ∷ t) (overlay_all xs ys (omega arith))

-- What a replacement with success leads to: the content of the new transfer in buffers of its
-- size, its fields, and the SPI layer's transfer over the same buffers.
abbrev pub Replaced : SpiXfer → List ℕ → SymspiDev → Type 0
Replaced new_xfer bytes d' =
    IsXfer d'.current_xfer
    × (d'.current_xfer.size_bytes ≡ new_xfer.size_bytes)
    × (content d'.current_xfer.data_tx ≡ bytes)
    × (d'.current_xfer.id ≡ new_xfer.id)
    × (d'.current_xfer.done_callback ≡ new_xfer.done_callback)
    × (d'.current_xfer.fail_callback ≡ new_xfer.fail_callback)
    × (d'.spi_xfer.tx_buf ≡ d'.current_xfer.data_tx)
    × (d'.spi_xfer.rx_buf ≡ d'.current_xfer.data_rx_buf)
    × (d'.spi_xfer.len ≡ d'.current_xfer.size_bytes)

filled-Replaced :
    (d : SymspiDev) (new_xfer : SpiXfer) (c : ℕ) (bytes : List ℕ)
    → IsXfer d.current_xfer
    → d.current_xfer.size_bytes ≡ new_xfer.size_bytes
    → new_xfer.data_tx ≡ live c bytes
    → length bytes ≡ new_xfer.size_bytes
    → Replaced new_xfer bytes (filled d new_xfer)
unfolding filled copied content update_native
filled-Replaced d new_xfer c bytes (a, tx, b, rx, at_tx, at_rx, len, len', ne) size source long =
    let n = d.current_xfer.size_bytes in
    let whole : overlay tx (take n bytes) ≡ bytes =
      ap (overlay tx) (take_all bytes n (size ∙ sym long))
      ∙ overlay_all tx bytes (len ∙ size ∙ sym long) in
    let copy : copied d.current_xfer.data_tx new_xfer.data_tx n ≡ live a bytes =
      ap (λ p. copied p new_xfer.data_tx n) at_tx
      ∙ ap (λ p. copied (live a tx) p n) source
      ∙ ap (live a) whole in
    (
      (a, bytes, b, rx, copy, at_rx, long ∙ sym size, len', ne),
      size,
      ap content copy,
      refl,
      refl,
      refl,
      refl,
      refl,
      refl,
    )

-- The transfer is resized to another size.
grown :
    (d : SymspiDev) (new_xfer : SpiXfer) (force_size_change : Bool) (tx rx : Block) (c : ℕ)
    (bytes : List ℕ)
    → new_xfer.size_bytes == 0 ≡ false
    → regions_overlap
        (address_of d.current_xfer.data_tx)
        d.current_xfer.size_bytes
        (address_of new_xfer.data_tx)
        new_xfer.size_bytes
      ≡ false
    → d.current_xfer.size_bytes == new_xfer.size_bytes ≡ false
    → not (is_xfer d.state) && not force_size_change ≡ false
    → new_xfer.data_tx ≡ live c bytes
    → length bytes ≡ new_xfer.size_bytes
    → let (result, d') = replace_xfer d new_xfer force_size_change tx rx in
      ((result ≡ success) × Replaced new_xfer bytes d')
      ⊎ ((e : SpiError) × (result ≡ failure e) × (d' ≡ d))
      ⊎ ((result ≡ failure SpiError.no_memory) × (d'.current_xfer.size_bytes ≡ 0))
unfolding replace_xfer
grown d new_xfer force tx rx c bytes full apart other allowed source long =
    let n = new_xfer.size_bytes in
    let resized = do_resize_xfer d.current_xfer n tx rx in
    let some_size : n ≢ 0 = ==_false n 0 full in
    elim (do_resize_xfer-cases d.current_xfer n tx rx some_size other) [
      | inl (good, size) ↦
          let ne = ==_ne resized.size_bytes 0 (λ e. some_size (sym size ∙ e)) in
          simp (full, apart, other, allowed, ne)
            (inl (
              refl,
              filled-Replaced (record d { current_xfer = resized }) new_xfer c bytes good size
                  source long,
            ))
      | inr lost ↦
          let empty = (==_iff resized.size_bytes 0).1 lost in
          simp (full, apart, other, allowed, empty) (inr (inr (refl, lost)))
    ]

-- The current transfer has two buffers of its size, and the new one has as many bytes as its size
-- says. Then symspi_replace_xfer, whatever the state and the allocations are, does one of three
-- things. It returns success: the current transfer has two buffers of the new size and the new
-- content, the ID and the callbacks of the new transfer, and the SPI layer's transfer goes over
-- the same buffers. Or it returns an error and the device is exactly as before. Or it returns that
-- there is no memory, and the size of the current transfer is 0.
pub replace_xfer_lem :
    (d : SymspiDev) (new_xfer : SpiXfer) (force_size_change : Bool) (tx rx : Block) (c : ℕ)
    (bytes : List ℕ)
    → IsXfer d.current_xfer
    → new_xfer.data_tx ≡ live c bytes
    → length bytes ≡ new_xfer.size_bytes
    → let (result, d') = replace_xfer d new_xfer force_size_change tx rx in
      ((result ≡ success) × Replaced new_xfer bytes d')
      ⊎ ((e : SpiError) × (result ≡ failure e) × (d' ≡ d))
      ⊎ ((result ≡ failure SpiError.no_memory) × (d'.current_xfer.size_bytes ≡ 0))
unfolding replace_xfer
replace_xfer_lem d new_xfer force tx rx c bytes good source long =
    let curr = d.current_xfer in
    let n = new_xfer.size_bytes in
    elim (Bool-cases (n == 0)) [
      | inl empty ↦ simp empty (inr (inl (SpiError.xfer_size_zero, refl, refl)))
      | inr full ↦
          elim (Bool-cases (
            regions_overlap (address_of curr.data_tx) curr.size_bytes (address_of new_xfer.data_tx)
              n)) [
                | inl shared ↦ simp (full, shared) (inr (inl (SpiError.overlap, refl, refl)))
                | inr apart ↦ elim (Bool-cases (curr.size_bytes == n)) [
                  | inl same ↦
                      simp (full, apart, same)
                        (inl (
                          refl,
                          filled-Replaced d new_xfer c bytes good
                              ((==_iff curr.size_bytes n).0 same) source long,
                        ))
                  | inr other ↦ elim (Bool-cases (not (is_xfer d.state) && not force)) [
                    | inl sudden ↦
                        simp (full, apart, other, sudden)
                          (inr (inl (SpiError.xfer_size_mismatch, refl, refl)))
                    | inr allowed ↦
                        grown d new_xfer force tx rx c bytes full apart other allowed source long
                  ]
                ]
              ]
    ]

-- The current transfer has two buffers of its size, and the new one has the same size, as many
-- bytes, and no address in common with the data to send of the current one. Then
-- symspi_replace_xfer returns success, in every state and without an allocation, and puts the new
-- content and the fields in place.
pub replace_xfer-same_size :
    (d : SymspiDev) (new_xfer : SpiXfer) (force_size_change : Bool) (tx rx : Block) (c : ℕ)
    (bytes : List ℕ)
    → IsXfer d.current_xfer
    → new_xfer.data_tx ≡ live c bytes
    → length bytes ≡ new_xfer.size_bytes
    → d.current_xfer.size_bytes ≡ new_xfer.size_bytes
    → ¬ Shares
        (address_of d.current_xfer.data_tx)
        d.current_xfer.size_bytes
        (address_of new_xfer.data_tx)
        new_xfer.size_bytes
    → let (result, d') = replace_xfer d new_xfer force_size_change tx rx in
      (result ≡ success) × Replaced new_xfer bytes d'
unfolding replace_xfer
replace_xfer-same_size d new_xfer force tx rx c bytes good source long same apart =
    let curr = d.current_xfer in
    let n = new_xfer.size_bytes in
    let (a, tx', b, rx', at_tx, at_rx, len, len', ne) = good in
    let full = ==_ne n 0 (λ e. ne (same ∙ e)) in
    let separate =
      regions_overlap_none (address_of curr.data_tx) curr.size_bytes (address_of new_xfer.data_tx) n
        (omega arith) (omega arith) apart in
    simp (full, separate, (==_iff curr.size_bytes n).1 same)
      (refl, filled-Replaced d new_xfer c bytes good same source long)
