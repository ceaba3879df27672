-- ===== src/Symspi/Xfer/Frame.antt =====
-- What a replacement leaves alone.
use iccom_utils.Base.{ℕ, ◌^◌, ◌≡◌, refl, Bool, not, ◌&&◌, ◌||◌, ◌==◌, leb, if_both}
use iccom_utils.Symspi.{Result, SpiXfer, SymspiDev}
use iccom_utils.Symspi.Xfer.{
  Block, address_of, do_resize_xfer, filled, regions_overlap, replace_xfer, update_native, is_xfer,
  get_next_xfer_id, inc_current_xfer_counter,
}

-- A device with another transfer.
abbrev pub with_xfer : SymspiDev → SymspiDev → SymspiDev
with_xfer d d' = record d { current_xfer = d'.current_xfer; spi_xfer = d'.spi_xfer }

pub replace_xfer-frame :
    (d : SymspiDev) (new_xfer : SpiXfer) (force_size_change : Bool) (tx rx : Block)
    → let d' = (replace_xfer d new_xfer force_size_change tx rx).1 in d' ≡ with_xfer d d'
unfolding replace_xfer filled update_native
replace_xfer-frame d new_xfer force tx rx =
    let curr = d.current_xfer in
    let d1 = record d { current_xfer = do_resize_xfer curr new_xfer.size_bytes tx rx } in
    let P = λ (r : Result × SymspiDev). r.1 ≡ with_xfer d r.1 in
    if_both P (new_xfer.size_bytes == 0) refl (
      if_both P
        (regions_overlap (address_of curr.data_tx) curr.size_bytes (address_of new_xfer.data_tx)
          new_xfer.size_bytes)
        refl
        (if_both P (curr.size_bytes == new_xfer.size_bytes) refl (
          if_both P (not (is_xfer d.state) && not force) refl
            (if_both P (d1.current_xfer.size_bytes == 0) refl refl))))

pub get_next_xfer_id-frame :
    (d : SymspiDev)
    → let d' = (get_next_xfer_id d).1 in d' ≡ record d { next_xfer_id = d'.next_xfer_id }
unfolding get_next_xfer_id
get_next_xfer_id-frame d =
    if_both (λ (r : ℕ × SymspiDev). r.1 ≡ record d { next_xfer_id = r.1.next_xfer_id })
      (d.next_xfer_id == 0 || leb (2 ^ 31) d.next_xfer_id) refl refl

pub inc_current_xfer_counter-frame :
    (d : SymspiDev)
    → let d' = inc_current_xfer_counter d in d' ≡ record d { current_xfer = d'.current_xfer }
unfolding inc_current_xfer_counter
inc_current_xfer_counter-frame d = refl
