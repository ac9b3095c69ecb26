-- ===== src/Scsi/Access.antt =====
-- kernel/scsi.c: the calls by which the rest of the kernel uses the devices. An `int` is the number of its 32 bits; a
-- buffer is the part of memory that it points to.
use hueos.Base.{ℕ, if◌then◌else◌, leb, Option, none, some, Bytes, get_or, ◌^◌}
use hueos.Io.{Trace, to_serial}
use hueos.Scsi.Controllers.{ScsiDevice, Scsi, no_scsi_device}

unfoldable pub scsi_get_device_count : Scsi → ℕ
scsi_get_device_count s = s.device_count

-- NULL is `none`.
unfoldable pub scsi_get_device : Scsi → ℕ → Option ScsiDevice
scsi_get_device s index =
    if leb (2 ^ 31) index
    then none
    else if leb s.device_count index
    then none
    else some (get_or s.scsi_devices index no_scsi_device)

unfoldable scsi_read_sector : Scsi → ℕ → ℕ → Bytes → Trace → ℕ × Bytes × Trace
scsi_read_sector s device_id lba buffer t =
    if leb s.device_count device_id
    then (1, buffer, t)
    else (0, buffer, to_serial "SCSI read sector not yet fully implemented\n" t)

unfoldable scsi_write_sector : Scsi → ℕ → ℕ → Bytes → Trace → ℕ × Bytes × Trace
scsi_write_sector s device_id lba buffer t =
    if leb s.device_count device_id
    then (1, buffer, t)
    else (0, buffer, to_serial "SCSI write sector not yet fully implemented\n" t)

-- -1
abbrev minus_one : ℕ
minus_one = 0xFFFFFFFF

unfoldable scsi_read_blocks : Scsi → ℕ → ℕ → ℕ → Bytes → Trace → ℕ × Bytes × Trace
scsi_read_blocks s device_id lba count buffer t =
    if leb s.device_count device_id
    then (minus_one, buffer, t)
    else (0, buffer, to_serial "SCSI read blocks not yet fully implemented\n" t)

unfoldable scsi_write_blocks : Scsi → ℕ → ℕ → ℕ → Bytes → Trace → ℕ × Bytes × Trace
scsi_write_blocks s device_id lba count buffer t =
    if leb s.device_count device_id
    then (minus_one, buffer, t)
    else (0, buffer, to_serial "SCSI write blocks not yet fully implemented\n" t)
