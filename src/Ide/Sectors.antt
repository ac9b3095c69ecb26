-- ===== src/Ide/Sectors.antt =====
-- `ide_read_sector` and `ide_write_sector` of kernel/ide.c. Both start with the same lines: `lba_io`, the wait, and
-- the writes to the registers.
pub mod Address
pub mod Transfer
use hueos.Base.{
  ℕ, zero, suc, ◌+◌, ◌-◌, ◌*◌, ◌/◌, ◌∷◌, [], List, Bool, true, false, if◌then◌else◌, bit_and,
  bit_or, u8, u16, ◌>>>◌, ◌<<<◌, for_up, Option, none, some, ◌>>=◌, is_set, Ram, load,
}
use hueos.Io.{Trace, Device, outw}
use hueos.Ide.{ide_write, wait_ready, ide_polling, read_word, channel_at}

-- Drive, sector count 1 and the bytes of the block address.
unfoldable pub send_address : ℕ → ℕ → ℕ → Trace → Trace
unfolding ide_write
send_address channel drive lba t =
    let lba0 = u8 (bit_and lba 0x000000FF >>> 0) in
    let lba1 = u8 (bit_and lba 0x0000FF00 >>> 8) in
    let lba2 = u8 (bit_and lba 0x00FF0000 >>> 16) in
    let t =
      ide_write channel 0x06 (u8 (bit_or (bit_or 0xE0 (drive <<< 4)) (bit_and (lba >>> 24) 0x0F)))
        t in
    let t = ide_write channel 0x02 1 t in
    let t = ide_write channel 0x03 lba0 t in
    let t = ide_write channel 0x04 lba1 t in ide_write channel 0x05 lba2 t

-- A round of the writing loop: the next word of the buffer goes to the data port.
unfoldable pub write_word : Ram → ℕ → ℕ → ℕ → Trace → Trace
write_word ram port buffer i t = outw port (load 2 ram (buffer + 2 * i)) t

module _ (dev : Device) where
  -- Both status loops, of this function and of the poll, have `fuel` rounds.
  unfoldable pub ide_read_sector : ℕ → ℕ → ℕ → ℕ → ℕ → Ram × Trace → Option (ℕ × Ram × Trace)
  unfolding ide_write wait_ready ide_polling send_address read_word for_up
  ide_read_sector fuel channel drive lba buffer (ram, t) = do
    t ← wait_ready dev fuel channel t
    (err, t) ←
        ide_polling dev fuel channel true
          (ide_write channel 0x07 0x20 (send_address channel drive lba t))
    if is_set err
        then some (1, ram, t)
        else (let (ram, t) =
              for_up 256 0 (read_word dev ((channel_at channel).base) buffer) (ram, t) in
            some (0, ram, t))

  unfoldable pub ide_write_sector : ℕ → ℕ → ℕ → ℕ → ℕ → Ram × Trace → Option (ℕ × Trace)
  unfolding ide_write wait_ready ide_polling send_address write_word for_up
  ide_write_sector fuel channel drive lba buffer (ram, t) = do
    t ← wait_ready dev fuel channel t
    (err, t) ←
        ide_polling dev fuel channel true
          (ide_write channel 0x07 0x30 (send_address channel drive lba t))
    if is_set err then some (1, t) else do
      (_, t) ← ide_polling dev fuel channel false (
          ide_write channel 0x07 0xE7
            (for_up 256 0 (write_word ram ((channel_at channel).base) buffer) t))
      some (0, t)
