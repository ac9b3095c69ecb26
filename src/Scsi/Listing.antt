-- ===== src/Scsi/Listing.antt =====
-- `scsi_print_devices` of kernel/scsi.c.
use hueos.Base.{
  ℕ, ◌+◌, ◌*◌, ◌/◌, ◌%◌, ◌^◌, ◌<◌, ◌≤◌, ◌≡◌, ◌≢◌, ◌∷◌, ◌&&◌, if◌then◌else◌, ◌==◌, get_or, for_up,
  is_set, u32, arith,
}
use hueos.Io.{Trace, to_serial, to_terminal, terminal_char, terminal_text, serial_text}
use hueos.Scsi.Controllers.{ScsiDevice, Scsi, no_scsi_device}
use hueos.Numbers.{number_string}
use hueos.Terminal.{before_nul}

-- The product is taken in 32 bits.
unfoldable pub scsi_size_mb : ScsiDevice → ℕ
scsi_size_mb d = u32 (d.block_count * d.block_size) / (1024 * 1024)

unfoldable pub print_scsi_size : ScsiDevice → Trace → Trace
unfolding number_string scsi_size_mb
print_scsi_size d t =
    let size_mb = scsi_size_mb d in
    let t = terminal_text (number_string size_mb) ∷ to_terminal "  Size: " t in
    let t = terminal_text (number_string d.block_count) ∷ to_terminal " MB (" t in
    let t = to_serial "  Size: " (to_terminal " blocks)\n" t) in
    to_serial " MB\n" (serial_text (number_string size_mb) ∷ t)

unfoldable pub print_scsi_type : ScsiDevice → Trace → Trace
print_scsi_type d t =
    if d.type == 0x00
    then to_serial "  Type: SCSI Hard Disk\n" (to_terminal "SCSI HDD\n" t)
    else if d.type == 0x05
    then to_serial "  Type: SCSI Optical Drive\n" (to_terminal "SCSI CD/DVD\n" t)
    else if d.type == 0x01
    then to_serial "  Type: SCSI Tape Drive\n" (to_terminal "SCSI Tape\n" t)
    else to_serial "  Type: SCSI Device\n" (to_terminal "SCSI Device\n" t)

-- The texts of the entry.
unfoldable pub print_scsi_texts : ScsiDevice → Trace → Trace
unfolding before_nul
print_scsi_texts d t =
    let t = to_terminal "\n" (terminal_text (before_nul d.vendor) ∷ to_terminal "  Vendor: " t) in
    let t = to_terminal "\n" (terminal_text (before_nul d.product) ∷ to_terminal "  Product: " t) in
    let t = to_serial "\n" (serial_text (before_nul d.vendor) ∷ to_serial "  Vendor: " t) in
    let t = to_serial "\n" (serial_text (before_nul d.product) ∷ to_serial "  Product: " t) in
    to_serial "\n" (serial_text (before_nul d.revision) ∷ to_serial "  Revision: " t)

-- A round of the loop.
unfoldable pub print_scsi_device : Scsi → ℕ → Trace → Trace
unfolding print_scsi_size print_scsi_type print_scsi_texts
print_scsi_device s i t =
    let d = get_or s.scsi_devices i no_scsi_device in
    let t = terminal_char (b'0' + i) ∷ to_terminal "Device " t in
    let t = terminal_char (b'0' + d.target) ∷ to_terminal ": Target " t in
    let t = print_scsi_texts d (print_scsi_type d (to_terminal " - " t)) in
    if d.type == 0x00 && is_set d.block_count then print_scsi_size d t else t

unfoldable pub scsi_print_devices : Scsi → Trace → Trace
unfolding print_scsi_device for_up
scsi_print_devices s t =
    let head = to_terminal "=============\n" (to_terminal "\nSCSI Devices:\n" t) in
    let head = to_serial "\nSCSI Devices:\n" head in
    if s.device_count == 0 then t else for_up s.device_count 0 (print_scsi_device s) head

-- The size that is listed is the true one in units of 2^20 bytes, but modulo 4096: it is right for a disk of less than
-- 4 GiB, and wrong for every larger one.
pub scsi_size_mb-mod :
    (d : ScsiDevice)
    → (scsi_size_mb d ≡ d.block_count * d.block_size / 2 ^ 20 % 4096)
      × (d.block_count * d.block_size < 2 ^ 32
          → scsi_size_mb d ≡ d.block_count * d.block_size / 2 ^ 20)
      × (2 ^ 32 ≤ d.block_count * d.block_size
          → scsi_size_mb d ≢ d.block_count * d.block_size / 2 ^ 20)
unfolding scsi_size_mb
scsi_size_mb-mod d = let x : ℕ = d.block_count * d.block_size in (split x, small x, large x)
  where
    split : (x : ℕ) → x % 2 ^ 32 / (1024 * 1024) ≡ x / 2 ^ 20 % 4096
    split x = omega arith

    small : (x : ℕ) → x < 2 ^ 32 → x % 2 ^ 32 / (1024 * 1024) ≡ x / 2 ^ 20
    small x h = omega arith

    large : (x : ℕ) → 2 ^ 32 ≤ x → x % 2 ^ 32 / (1024 * 1024) ≢ x / 2 ^ 20
    large x h e = omega arith
