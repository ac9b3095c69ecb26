-- ===== src/Ide/Detection.antt =====
-- `ide_detect_devices` of kernel/ide.c, with its parts: the claim of a slot, the signature, the identification.
pub mod Filling
pub mod Identified
pub mod Present
pub mod Slots
pub mod Found
use hueos.Base.{
  ℕ, zero, suc, ◌+◌, ◌*◌, ◌^◌, ◌∷◌, [], List, Bool, true, false, ◌&&◌, ◌||◌, not, if◌then◌else◌,
  ◌==◌, bit_and, bit_or, u8, ◌<<<◌, get_or, set, replicate, for_up, for_cells, Option, none, some,
  ◌>>=◌, is_set, Ram, load,
}
use hueos.Io.{Trace, Device, inb, to_serial}
use hueos.Ide.{
  IdeDevice, Ide, ide_read, ide_write, ide_polling, pause, poll_verdict, wait_ready,
  ide_read_buffer, ide_string_copy, channel_at,
}

-- A slot of the static array before the first detection.
abbrev pub no_device : IdeDevice
no_device = record {
  reserved = 0;
  channel = 0;
  drive = 0;
  kind = 0;
  signature = 0;
  capabilities = 0;
  command_sets = 0;
  size = 0;
  model = replicate 41 0;
}

abbrev pub boot_ide : Ide
boot_ide = record { ide_devices = replicate 4 no_device; device_count = 0 }

-- `for (int i = 0; i < 1000; i++) inb(channels[channel].ctrl);`
unfoldable pub wait_1ms : Device → ℕ → Trace → Trace
unfolding for_up
wait_1ms dev channel t = for_up 1000 0 (λ _ t. (inb dev ((channel_at channel).ctrl) t).1) t

-- The three fields that are written before the drive is asked.
unfoldable pub claim_slot : ℕ → ℕ → Ide → Ide
claim_slot channel drive s =
    let old = get_or s.ide_devices s.device_count no_device in
    record s {
      ide_devices =
          set s.ide_devices s.device_count
            (record old { reserved = 0; channel = channel; drive = drive });
    }

-- The `n` words of memory from an address on.
unfoldable pub words_at : ℕ → Ram → ℕ → List ℕ
words_at zero ram a = []
words_at (suc n) ram a = load 2 ram a ∷ words_at n ram (a + 2)

-- The device structure from the identification space, at address 0 of a memory of its own.
unfoldable pub fill_device : ℕ → Ram → IdeDevice → IdeDevice
unfolding words_at ide_string_copy
fill_device type buffer old =
    let sets = load 4 buffer (2 * 82) in
    record old {
      kind = type;
      signature = load 2 buffer 0;
      capabilities = load 2 buffer (2 * 49);
      command_sets = sets;
      size = if is_set (bit_and sets (2 ^ 26)) then load 4 buffer (2 * 60) else 0;
      model = ide_string_copy old.model (words_at 20 buffer (2 * 27)) 40;
    }

-- The slot is filled, and taken.
unfoldable pub fill_slot : ℕ → Ram → Ide → Ide
unfolding fill_device
fill_slot type buffer s =
    let new = fill_device type buffer (get_or s.ide_devices s.device_count no_device) in
    record { ide_devices = set s.ide_devices s.device_count new; device_count = s.device_count + 1 }

module _ (dev : Device) where
  -- What is done with the type: the data is read and the slot filled.
  unfoldable pub identify : ℕ → ℕ → Ide → Trace → Ide × Trace
  unfolding fill_slot ide_read_buffer
  identify channel type s t =
      let (buffer, t) = ide_read_buffer dev channel 0x00 0 256 ((λ _. 0), t) in
      (fill_slot type buffer s, t)

  -- After the poll: the signature bytes decide between ATAPI, ATA and `continue`.
  unfoldable pub classify : ℕ → ℕ → Ide → Trace → Ide × Trace
  unfolding ide_read ide_write wait_1ms identify
  classify channel err s t =
      let (cl, t) = ide_read dev channel 0x04 t in
      let (ch, t) = ide_read dev channel 0x05 t in
      if (cl == 0x14 && ch == 0xEB) || (cl == 0x69 && ch == 0x96)
      then identify channel 1 s (wait_1ms dev channel (ide_write channel 0x07 0xA1 t))
      else if is_set cl || is_set ch || is_set err
      then (s, t)
      else identify channel 0 s t

  unfoldable pub detect_drive : ℕ → ℕ → ℕ → Ide × Trace → Option (Ide × Trace)
  unfolding ide_read ide_write ide_polling wait_1ms claim_slot classify
  detect_drive fuel channel drive (s, t) =
      let s = claim_slot channel drive s in
      let t = wait_1ms dev channel (ide_write channel 0x06 (u8 (bit_or 0xA0 (drive <<< 4))) t) in
      let t = wait_1ms dev channel (ide_write channel 0x07 0xEC t) in
      let (status, t) = ide_read dev channel 0x07 t in
      let go_on =
        ide_polling dev fuel channel false t >>= λ (err, t). some (classify channel err s t) in
      if status == 0 then some (s, t) else go_on

  -- Each poll has `fuel` rounds.
  unfoldable pub ide_detect_devices : ℕ → Ide × Trace → Option (Ide × Trace)
  unfolding for_cells detect_drive
  ide_detect_devices fuel (s, t) = do
    (s, t) ←
        for_cells 2 2 (λ channel drive r. r >>= detect_drive fuel channel drive)
          (some (s, to_serial "Detecting IDE devices...\n" t))
    some (s, to_serial "IDE device detection complete\n" t)
