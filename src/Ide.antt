-- ===== src/Ide.antt =====
-- kernel/ide.c: the register access, the wait for the drive, and the table of devices. A wait has fuel, one unit
-- for each read of the status register: `none` is a loop that did not end in that many reads.
pub mod Registers
pub mod Polling
pub mod Names
pub mod Detection
pub mod Sectors
pub mod Listing
use hueos.Base.{
  ℕ, zero, suc, ◌+◌, ◌-◌, ◌*◌, ◌/◌, ◌∷◌, [], List, Bool, ◌&&◌, if◌then◌else◌, ltb, ◌==◌, bit_and,
  bit_or, u8, u16, get_or, set, for_up, Option, none, some, ◌>>=◌, is_set, Bytes, ◌>>>◌, Ram, store,
  not, true, false,
}
use hueos.Io.{Trace, Device, outb, inb, inw, to_serial}

-- `ide_device_t`; the model is the 41 bytes of its array.
pub record IdeDevice : Type 0 where
  pub reserved : ℕ
  pub channel : ℕ
  pub drive : ℕ
  pub kind : ℕ
  pub signature : ℕ
  pub capabilities : ℕ
  pub command_sets : ℕ
  pub size : ℕ
  pub model : Bytes

-- The static variables.
pub record Ide : Type 0 where
  pub ide_devices : List IdeDevice
  pub device_count : ℕ

pub record Channel : Type 0 where
  pub base : ℕ
  pub ctrl : ℕ

abbrev pub channels : List Channel
channels = record { base = 0x1F0; ctrl = 0x3F6 } ∷ record { base = 0x170; ctrl = 0x376 } ∷ []

-- `channels[channel]`; the callers pass 0 and 1, and what lies behind the array is not known.
abbrev pub channel_at : ℕ → Channel
channel_at channel = get_or channels channel (record { base = 0; ctrl = 0 })

module _ (dev : Device) where
  -- `ide_read` below register 0x16, from where the source returns a variable that it has not set: 0 here.
  unfoldable pub ide_read : ℕ → ℕ → Trace → ℕ × Trace
  ide_read channel reg t =
      let c = channel_at channel in
      let t = if ltb 0x07 reg && ltb reg 0x0C then (inb dev (c.ctrl + 0x0C - 0x0A) t).1 else t in
      if ltb reg 0x08
      then inb dev (c.base + reg) t
      else if ltb reg 0x0C
      then inb dev (c.base + reg - 0x06) t
      else if ltb reg 0x0E
      then inb dev (c.ctrl + reg - 0x0A) t
      else if ltb reg 0x16
      then inb dev (c.base + reg - 0x0E) t
      else (0, t)

-- `ide_write`; the control byte of the call of itself is `0x80 | channels[channel].ctrl`, cut to 8 bits.
unfoldable pub ide_write : ℕ → ℕ → ℕ → Trace → Trace
ide_write channel reg val t =
    let c = channel_at channel in
    let t =
      if ltb 0x07 reg && ltb reg 0x0C
      then outb (c.ctrl + 0x0C - 0x0A) (u8 (bit_or 0x80 c.ctrl)) t
      else t in
    if ltb reg 0x08
    then outb (c.base + reg) val t
    else if ltb reg 0x0C
    then outb (c.base + reg - 0x06) val t
    else if ltb reg 0x0E
    then outb (c.ctrl + reg - 0x0A) val t
    else if ltb reg 0x16
    then outb (c.base + reg - 0x0E) val t
    else t

module _ (dev : Device) where
  -- A round of a loop that stores the next word of the data port at `buffer[i]`.
  unfoldable pub read_word : ℕ → ℕ → ℕ → Ram × Trace → Ram × Trace
  read_word port buffer i (ram, t) =
      let (w, t) = inw dev port t in (store 2 ram (buffer + 2 * i) w, t)

  unfoldable pub ide_read_buffer : ℕ → ℕ → ℕ → ℕ → Ram × Trace → Ram × Trace
  unfolding ide_read read_word for_up
  ide_read_buffer channel reg buffer count (ram, t) =
      let t = if ltb 0x07 reg && ltb reg 0x0C then (ide_read dev channel 0x0C t).1 else t in
      if ltb reg 0x08
      then for_up count 0 (read_word ((channel_at channel).base + reg) buffer) (ram, t)
      else (ram, t)

  -- `while (ide_read(channel, ATA_REG_STATUS) & ATA_SR_BSY);`
  unfoldable pub wait_ready : ℕ → ℕ → Trace → Option Trace
  unfolding ide_read
  wait_ready zero channel t = none
  wait_ready (suc fuel) channel t =
      let (status, t') = ide_read dev channel 0x07 t in
      let again = wait_ready fuel channel t' in
      if is_set (bit_and status 0x80) then again else some t'

  -- What follows the wait, where the last argument is the status that is read for the advanced check.
  unfoldable pub poll_verdict : Bool → Trace → ℕ × Trace → ℕ × Trace
  poll_verdict false t _ = (0, t)
  poll_verdict true t (state, t') =
      if is_set (bit_and state 0x01)
      then (2, t')
      else if is_set (bit_and state 0x20)
      then (1, t')
      else if not (is_set (bit_and state 0x08))
      then (3, t')
      else (0, t')

  -- Four reads of the alternate status: 400 ns.
  unfoldable pub pause : ℕ → Trace → Trace
  unfolding for_up ide_read
  pause channel t = for_up 4 0 (λ _ t. (ide_read dev channel 0x0C t).1) t

  unfoldable pub ide_polling : ℕ → ℕ → Bool → Trace → Option (ℕ × Trace)
  unfolding ide_read wait_ready poll_verdict pause
  ide_polling fuel channel advanced_check t = do
    t ← wait_ready fuel channel (pause channel t)
    some (poll_verdict advanced_check t (ide_read dev channel 0x07 t))

-- The trimming loop: position `i - 1` and down, for as long as it holds a space.
unfoldable pub trim_spaces : ℕ → Bytes → Bytes
trim_spaces zero dest = dest
trim_spaces (suc i) dest =
    let rest = trim_spaces i (set dest i 0) in if get_or dest i 0 == b' ' then rest else dest

-- `ide_string_copy`: words of the identify data, each with its two bytes swapped.
unfoldable pub ide_string_copy : Bytes → List ℕ → ℕ → Bytes
unfolding trim_spaces for_up
ide_string_copy dest src length =
    let swapped =
      for_up ((length + 1) / 2) 0
        (λ i d.
          set (set d (2 * i) (u8 (bit_and (get_or src i 0 >>> 8) 0xFF))) (2 * i + 1)
            (u8 (bit_and (get_or src i 0) 0xFF)))
        dest in
    trim_spaces length (set swapped length 0)

unfoldable pub init_ide : Ide → Trace → Ide × Trace
unfolding ide_write
init_ide s t =
    let t = to_serial "Initializing IDE controllers...\n" t in
    let s = record s { device_count = 0 } in
    (s, to_serial "IDE controllers initialized\n" (ide_write 1 0x0C 2 (ide_write 0 0x0C 2 t)))

abbrev pub ide_get_device_count : Ide → ℕ
ide_get_device_count s = s.device_count

-- `ide_get_device`: NULL is `none`. A negative index is no index of ours.
unfoldable pub ide_get_device : ℕ → Ide → Option ℕ
ide_get_device index s = if ltb index s.device_count then some index else none
