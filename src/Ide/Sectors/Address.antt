-- ===== src/Ide/Sectors/Address.antt =====
-- The block address that kernel/ide.c splits over the drive's registers, as the drive puts it together.
use hueos.Base.{
  ℕ, zero, suc, ◌+◌, ◌*◌, ◌/◌, ◌%◌, ◌^◌, ◌<◌, ◌≡◌, refl, ap, arith, bit_and, bit_or, bit_and-ones,
  bit_and-field, bit_or-fields, ◌<<<◌, ◌>>>◌, u8,
}
use hueos.Io.{Trace, last_written}
use hueos.Ide.{channel_at, ide_write}
use hueos.Ide.Sectors.{send_address}

-- The 28-bit address in the registers of the channel at `base`.
unfoldable pub addressed : ℕ → Trace → ℕ
addressed base t =
    last_written t (base + 3)
    + last_written t (base + 4) * 2 ^ 8
    + last_written t (base + 5) * 2 ^ 16
    + last_written t (base + 6) % 2 ^ 4 * 2 ^ 24

selector :
    (drive lba : ℕ)
    → drive < 2
    → u8 (bit_or (bit_or 0xE0 (drive <<< 4)) (bit_and (lba >>> 24) 0x0F))
      ≡ 0xE0 + drive * 16 + lba / 2 ^ 24 % 16
selector zero lba h = omega (
  arith,
  bit_and-ones 4 (lba >>> 24),
  ap (bit_or 0xE0) (bit_and-ones 4 (lba >>> 24)),
  bit_or-fields 4 14 (lba / 2 ^ 24 % 16) (omega arith),
)
selector (suc zero) lba h = omega (
  arith,
  bit_and-ones 4 (lba >>> 24),
  ap (bit_or 0xF0) (bit_and-ones 4 (lba >>> 24)),
  bit_or-fields 4 15 (lba / 2 ^ 24 % 16) (omega arith),
)
selector (suc (suc n)) lba h = absurd (omega arith)

-- The drive's bits of the selector, and the address put together again.
drive_bits :
    (drive lba : ℕ)
    → drive < 2
    → u8 (u8 (bit_or (bit_or 0xE0 (drive <<< 4)) (bit_and (lba >>> 24) 0x0F))) / 16 ≡ 14 + drive
drive_bits drive lba h = omega (arith, selector drive lba h)

parts :
    (drive lba : ℕ)
    → drive < 2
    → u8 (u8 (bit_and lba 0x000000FF >>> 0))
        + u8 (u8 (bit_and lba 0x0000FF00 >>> 8)) * 256
        + u8 (u8 (bit_and lba 0x00FF0000 >>> 16)) * 65536
        + u8 (u8 (bit_or (bit_or 0xE0 (drive <<< 4)) (bit_and (lba >>> 24) 0x0F))) % 16 * 16777216
      ≡ lba % 268435456
parts drive lba h =
    omega (
      arith,
      selector drive lba h,
      bit_and-ones 8 lba,
      bit_and-field 8 8 lba,
      bit_and-field 16 8 lba,
    )

-- On both channels, for both drives: the registers hold the block address modulo 2 ^ 28, the drive's bit, the three
-- bits of LBA mode, and a count of one sector.
pub send_address-addressed :
    (channel drive lba : ℕ) (t : Trace)
    → channel < 2
    → drive < 2
    → (let base = (channel_at channel).base in
        let u = send_address channel drive lba t in
        (addressed base u ≡ lba % 2 ^ 28)
        × (last_written u (base + 6) / 2 ^ 4 ≡ 14 + drive)
        × (last_written u (base + 2) ≡ 1))
unfolding send_address addressed last_written
send_address-addressed zero drive lba t hc hd = (parts drive lba hd, drive_bits drive lba hd, refl)
send_address-addressed (suc zero) drive lba t hc hd =
    (parts drive lba hd, drive_bits drive lba hd, refl)
send_address-addressed (suc (suc n)) drive lba t hc hd = absurd (omega arith)

-- The registers of a channel for one sector of a drive, and the command that was given last.
abbrev pub IsCommanded : ℕ → ℕ → ℕ → ℕ → Trace → Type 0
IsCommanded channel drive lba command t =
    let base = (channel_at channel).base in
    (addressed base t ≡ lba % 2 ^ 28)
    × (last_written t (base + 6) / 2 ^ 4 ≡ 14 + drive)
    × (last_written t (base + 2) ≡ 1)
    × (last_written t (base + 7) ≡ u8 command)

pub command-IsCommanded :
    (channel drive lba command : ℕ) (t : Trace)
    → channel < 2
    → drive < 2
    → IsCommanded channel drive lba command
        (ide_write channel 0x07 command (send_address channel drive lba t))
unfolding ide_write send_address addressed last_written
command-IsCommanded zero drive lba command t hc hd =
    (parts drive lba hd, drive_bits drive lba hd, refl, refl)
command-IsCommanded (suc zero) drive lba command t hc hd =
    (parts drive lba hd, drive_bits drive lba hd, refl, refl)
command-IsCommanded (suc (suc n)) drive lba command t hc hd = absurd (omega arith)
