-- ===== src/Ide/Listing.antt =====
-- `ide_print_devices` of kernel/ide.c.
use hueos.Base.{ℕ, ◌+◌, ◌/◌, ◌∷◌, ◌&&◌, if◌then◌else◌, ◌==◌, get_or, for_up, is_set}
use hueos.Io.{Trace, to_serial, to_terminal, terminal_char, terminal_text, serial_text}
use hueos.Ide.{IdeDevice, Ide}
use hueos.Ide.Detection.{no_device}
use hueos.Numbers.{number_string}
use hueos.Terminal.{before_nul}

-- The size line, in units of 2048 sectors.
unfoldable pub print_size : IdeDevice → Trace → Trace
unfolding number_string
print_size d t =
    let size_str = number_string (d.size / 2048) in
    let t = terminal_text size_str ∷ to_terminal "  Size: " t in
    let t = to_serial "  Size: " (to_terminal " MB\n" t) in
    to_serial " MB\n" (serial_text size_str ∷ t)

-- A round of the loop.
unfoldable pub print_device : Ide → ℕ → Trace → Trace
unfolding print_size before_nul
print_device s i t =
    let d = get_or s.ide_devices i no_device in
    let t = to_terminal ": " (terminal_char (b'0' + i) ∷ to_terminal "Device " t) in
    let t = to_terminal (if d.channel == 0 then "Primary " else "Secondary ") t in
    let t = to_terminal (if d.drive == 0 then "Master - " else "Slave - ") t in
    let t =
      if d.kind == 0
      then to_serial "  Type: ATA Hard Disk\n" (to_terminal "ATA HDD\n" t)
      else to_serial "  Type: ATAPI Optical Drive\n" (to_terminal "ATAPI CD/DVD\n" t) in
    let t = to_terminal "\n" (terminal_text (before_nul d.model) ∷ to_terminal "  Model: " t) in
    let t = to_serial "\n" (serial_text (before_nul d.model) ∷ to_serial "  Model: " t) in
    if d.kind == 0 && is_set d.size then print_size d t else t

unfoldable pub ide_print_devices : Ide → Trace → Trace
unfolding print_device for_up
ide_print_devices s t =
    let t = to_terminal "============\n" (to_terminal "\nIDE Devices:\n" t) in
    let t = to_serial "\nIDE Devices:\n" t in
    if s.device_count == 0
    then to_serial "No IDE devices detected\n" (to_terminal "No IDE devices detected\n" t)
    else for_up s.device_count 0 (print_device s) t
