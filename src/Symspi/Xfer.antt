-- ===== src/Symspi/Xfer.antt =====
-- The current transfer: its buffers, its replacement by the consumer's one, and its numbers.
pub mod Replace
pub mod Numbers
pub mod Overlap
pub mod Copy
pub mod Frame
use iccom_utils.Base.{
  ℕ, ◌+◌, ◌-◌, ◌^◌, ◌%◌, List, [], ◌++◌, Bool, true, false, not, ◌&&◌, ◌||◌, Option, none, some,
}
use iccom_utils.Base.{◌==◌, ltb, leb, if◌then◌else◌, take, overlay}
use iccom_utils.Kernel.{fit}
use iccom_utils.Symspi.{
  State, SpiError, Result, success, failure, Pointer, null, live, dangling, SpiXfer, SpiTransfer,
  SymspiDev,
}

abbrev pub initial_xfer_id : ℕ
initial_xfer_id = 1

-- The outcome of one `krealloc`: no memory, or an address and what the new memory holds behind the
-- old content.
pub data Block : Type 0 where
  refused : Block
  at : ℕ → List ℕ → Block

-- What a pointer points to, and where.
pub content : Pointer → List ℕ
content null = []
content (live address bytes) = bytes
content (dangling address) = []

unfoldable pub address_of : Pointer → ℕ
address_of null = 0
address_of (live address bytes) = address
address_of (dangling address) = address

-- `krealloc` leaves the old memory alone if it fails.
pub krealloc : Pointer → ℕ → Block → Pointer
unfolding content
krealloc p n refused = null
krealloc p n (at address junk) = live address (fit n (content p ++ junk))

pub kfree : Pointer → Pointer
kfree null = null
kfree (live address bytes) = dangling address
kfree (dangling address) = dangling address

-- `out_of_memory`
pub freed : SpiXfer → SpiXfer
unfolding kfree
freed xfer = record xfer {
  size_bytes = 0;
  data_tx = kfree xfer.data_tx;
  data_rx_buf = kfree xfer.data_rx_buf;
}

-- What follows the allocation of the two buffers.
pub resized_rx : SpiXfer → ℕ → Block → SpiXfer
unfolding krealloc freed
resized_rx xfer n refused =
    freed (record xfer { data_rx_buf = krealloc xfer.data_rx_buf n refused })
resized_rx xfer n (at address junk) = record xfer {
  data_rx_buf = krealloc xfer.data_rx_buf n (at address junk);
}

pub resized_tx : SpiXfer → ℕ → Block → Block → SpiXfer
unfolding resized_rx
resized_tx xfer n refused rx = freed (record xfer { data_tx = krealloc xfer.data_tx n refused })
resized_tx xfer n (at address junk) rx =
    resized_rx (record xfer { data_tx = krealloc xfer.data_tx n (at address junk) }) n rx

pub do_resize_xfer : SpiXfer → ℕ → Block → Block → SpiXfer
unfolding resized_tx
do_resize_xfer xfer n tx rx =
    let sized = record xfer { size_bytes = n } in
    if xfer.size_bytes == n then xfer else if n == 0 then freed sized else resized_tx sized n tx rx

pub xfer_init_empty : SpiXfer
xfer_init_empty = record {
  size_bytes = 0;
  data_tx = null;
  data_rx_buf = null;
  xfers_counter = 0;
  id = initial_xfer_id;
  consumer_data = none;
  done_callback = none;
  fail_callback = none;
}

-- `memcpy` of `n` bytes to the front of what a pointer points to.
pub copied : Pointer → Pointer → ℕ → Pointer
copied null source n = null
copied (live address bytes) source n = live address (overlay bytes (take n (content source)))
copied (dangling address) source n = dangling address

pub xfer_init_copy : SpiXfer → Block → Block → Result × SpiXfer
unfolding copied
xfer_init_copy source tx rx =
    let target = do_resize_xfer xfer_init_empty source.size_bytes tx rx in
    if target.size_bytes == 0 then (failure SpiError.no_memory, target) else (
      success,
      record target {
        data_tx = copied target.data_tx source.data_tx source.size_bytes;
        done_callback = source.done_callback;
        consumer_data = source.consumer_data;
      },
    )

pub xfer_free : SpiXfer → SpiXfer
xfer_free target = record (do_resize_xfer target 0 refused refused) {
  done_callback = none;
  consumer_data = none;
}

pub regions_overlap : ℕ → ℕ → ℕ → ℕ → Bool
regions_overlap r_1 size_1 r_2 size_2 = ltb r_2 (r_1 + size_1) && leb r_1 (r_2 + size_2 - 1)

pub update_native : SymspiDev → SymspiDev
update_native d = record d {
  spi_xfer = record {
    tx_buf = d.current_xfer.data_tx;
    rx_buf = d.current_xfer.data_rx_buf;
    len = d.current_xfer.size_bytes;
  };
}

pub is_xfer : State → Bool
is_xfer s = elim s [ State.xfer ↦ true | _ ↦ false ]

-- The end of `symspi_replace_xfer`: the content and the fields of the new transfer.
pub filled : SymspiDev → SpiXfer → SymspiDev
unfolding copied
filled d new_xfer =
    let curr = d.current_xfer in
    update_native (record d {
      current_xfer = record curr {
        data_tx = copied curr.data_tx new_xfer.data_tx curr.size_bytes;
        id = new_xfer.id;
        done_callback = new_xfer.done_callback;
        fail_callback = new_xfer.fail_callback;
        consumer_data = new_xfer.consumer_data;
        xfers_counter = new_xfer.xfers_counter;
      };
    })

pub replace_xfer : SymspiDev → SpiXfer → Bool → Block → Block → Result × SymspiDev
unfolding filled is_xfer
replace_xfer d new_xfer force_size_change tx rx =
    let curr = d.current_xfer in
    let d' = record d { current_xfer = do_resize_xfer curr new_xfer.size_bytes tx rx } in
    if new_xfer.size_bytes == 0
    then (failure SpiError.xfer_size_zero, d)
    else if regions_overlap (address_of curr.data_tx) curr.size_bytes (address_of new_xfer.data_tx)
        new_xfer.size_bytes
    then (failure SpiError.overlap, d)
    else if curr.size_bytes == new_xfer.size_bytes
    then (success, filled d new_xfer)
    else if not (is_xfer d.state) && not force_size_change
    then (failure SpiError.xfer_size_mismatch, d)
    else if d'.current_xfer.size_bytes == 0
    then (failure SpiError.no_memory, d')
    else (success, filled d' new_xfer)

-- The ID, and the device with the next one; `int`s wrap.
pub get_next_xfer_id : SymspiDev → ℕ × SymspiDev
get_next_xfer_id d =
    let xfer_id = d.next_xfer_id in
    let next = (d.next_xfer_id + 1) % 2 ^ 32 in
    if xfer_id == 0 || leb (2 ^ 31) xfer_id
    then (initial_xfer_id, record d { next_xfer_id = initial_xfer_id + 1 })
    else (xfer_id, record d { next_xfer_id = next })

unfoldable pub inc_current_xfer_counter : SymspiDev → SymspiDev
inc_current_xfer_counter d =
    let counter = (d.current_xfer.xfers_counter + 1) % 2 ^ 32 in
    record d {
      current_xfer = record (d.current_xfer) {
        xfers_counter = if leb (2 ^ 31) counter then 1 else counter;
      };
    }
