-- ===== src/Device/Api/Binded.antt =====
-- `iccom_init_binded` and `iccom_close_binded`: the core together with the transport layer below.
pub mod Init
use iccom_utils.Base.{Bool, true, false, if◌then◌else◌}
use iccom_utils.Kernel.{Status, ok, err, Errno, Memory}
use iccom_utils.Device.Api.{
  Handle, no_device, no_private, device, Surroundings, Entries, iccom_init, iccom_close,
}

-- What follows the call of `iccom_init`; the transport layer is closed after an error.
bound : (Status × Handle) × Entries → Status × Handle × Bool × Entries
bound ((ok, h), entries) = (ok, h, true, entries)
bound ((err e, h), entries) = (err e, h, false, entries)

-- The Boolean tells whether the transport layer is initialised, and the last part what there is in
-- procfs.
pub iccom_init_binded :
    Handle → Bool → Entries → Surroundings → Memory → Status × Handle × Bool × Entries
unfolding bound
iccom_init_binded h running entries w m =
    if w.xfer_device_ok
    then if w.interface_ok then bound (iccom_init w m) else (err Errno.einval, h, running, entries)
    else (err Errno.enodev, h, running, entries)

-- `iccom_init_binded` has checked the pointer of the transport device.
pub iccom_close_binded : Handle → Bool → Entries → Handle × Bool × Entries
iccom_close_binded no_device running entries = (no_device, running, entries)
iccom_close_binded no_private running entries = (no_private, false, entries)
iccom_close_binded (device d) running entries =
    let (h, entries') = iccom_close (device d) entries true in (h, false, entries')
