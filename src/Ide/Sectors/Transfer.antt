-- ===== src/Ide/Sectors/Transfer.antt =====
-- The data phase of kernel/ide.c and the outcome of a sector call.
use hueos.Base.{
  ℕ, zero, suc, ◌+◌, ◌*◌, ◌≤◌, ◌<◌, ◌≡◌, refl, sym, ap, ◌∙◌, ◌⊎◌, inl, inr, some, true, false,
  arith, for_up, for_up_inv, Ram, load, store, store-outside, load-store_self, load-store_apart,
  u16, is_set, if◌then◌else◌, ℕ_discrete, Bool-cases, ◌∷◌, [], List, ◌++◌, load-lt, ==_iff, ◌^◌,
  ◌==◌,
}
use mathlib.Core.List.{append-nil, append_assoc}
use hueos.Ide.Sectors.Address.{IsCommanded, command-IsCommanded}
use hueos.Io.{
  Trace, Device, last_written, inw, out8, in8, out16, in16, out32, in32, serial_text, terminal_text,
  terminal_char, gdt_flush, idt_flush, wrmsr,
}
use hueos.Ide.{ide_read, pause, read_word, channel_at, ide_write}
use hueos.Ide.Polling.{polled, BusyFor, report, wait_ready-BusyFor, ide_polling-BusyFor}
use hueos.Ide.Sectors.{send_address, ide_read_sector, ide_write_sector, write_word}

-- The trace after `k` reads of the data port, and the word that the next one gives.
unfoldable pub drained : Device → ℕ → ℕ → Trace → Trace
drained dev port zero t = t
drained dev port (suc k) t = (inw dev port (drained dev port k t)).1

unfoldable pub word_read : Device → ℕ → ℕ → Trace → ℕ
word_read dev port k t = (inw dev port (drained dev port k t)).0

-- What the reading loop has done after `i` words.
abbrev Read : Device → ℕ → ℕ → Ram × Trace → ℕ → Ram × Trace → Type 0
Read dev port buffer (ram, t) i (ram', t') =
    (t' ≡ drained dev port i t)
    × ((k : ℕ) → k < i → load 2 ram' (buffer + 2 * k) ≡ word_read dev port k t)
    × ((a : ℕ) → (a < buffer) ⊎ (buffer + 2 * i ≤ a) → ram' a ≡ ram a)

read_word-Read :
    (dev : Device) (port buffer i : ℕ) (s u : Ram × Trace)
    → Read dev port buffer s i u
    → Read dev port buffer s (suc i) (read_word dev port buffer i u)
unfolding read_word drained word_read
read_word-Read dev port buffer i (ram, t) (ram', t') (same, words, rest) =
    (ap (λ u. (inw dev port u).1) same, cell, outside)
  where
    w : ℕ
    w = (inw dev port t').0

    cell :
        (k : ℕ)
        → k < suc i
        → load 2 (store 2 ram' (buffer + 2 * i) w) (buffer + 2 * k) ≡ word_read dev port k t
    cell k lt = elim (ℕ_discrete k i) [
      | yes e ↦ rw e (
          load-store_self 2 ram' (buffer + 2 * i) w (omega arith)
          ∙ ap (λ u. (inw dev port u).0) same)
      | no ne ↦
          load-store_apart 2 2 ram' (buffer + 2 * i) (buffer + 2 * k) w (inl (omega arith))
          ∙ words k (omega arith)
    ]

    outside :
        (a : ℕ)
        → (a < buffer) ⊎ (buffer + 2 * suc i ≤ a)
        → store 2 ram' (buffer + 2 * i) w a ≡ ram a
    outside a out = store-outside 2 ram' (buffer + 2 * i) w a (grind arith) ∙ rest a (grind arith)

-- The loop over the data port stores the words in the order in which the drive gives them, the low byte first, and no
-- byte outside the `2 * n` of the buffer.
pub read_words-Read :
    (dev : Device) (port buffer n : ℕ) (ram : Ram) (t : Trace)
    → (let (ram', t') = for_up n 0 (read_word dev port buffer) (ram, t) in
        (t' ≡ drained dev port n t)
        × ((k : ℕ) → k < n → load 2 ram' (buffer + 2 * k) ≡ word_read dev port k t)
        × ((a : ℕ) → (a < buffer) ⊎ (buffer + 2 * n ≤ a) → ram' a ≡ ram a))
unfolding drained
read_words-Read dev port buffer n ram t =
    for_up_inv (Read dev port buffer (ram, t)) (read_word dev port buffer) n 0 n (ram, t)
      (λ i u _ _ p. read_word-Read dev port buffer i (ram, t) u p) (omega arith)
      (refl, (λ k h. absurd (omega arith)), (λ a h. refl))

-- The words sent to a 16-bit port, the oldest first.
unfoldable pub words_sent : ℕ → Trace → List ℕ
words_sent port [] = []
words_sent port (out16 p v ∷ t) =
    let rest = words_sent port t in if p == port then rest ++ v ∷ [] else rest
words_sent port (out8 p v ∷ t) = words_sent port t
words_sent port (in8 p v ∷ t) = words_sent port t
words_sent port (in16 p v ∷ t) = words_sent port t
words_sent port (out32 p v ∷ t) = words_sent port t
words_sent port (in32 p v ∷ t) = words_sent port t
words_sent port (serial_text s ∷ t) = words_sent port t
words_sent port (terminal_text s ∷ t) = words_sent port t
words_sent port (terminal_char c ∷ t) = words_sent port t
words_sent port (gdt_flush a ∷ t) = words_sent port t
words_sent port (idt_flush a ∷ t) = words_sent port t
words_sent port (wrmsr a v ∷ t) = words_sent port t

-- The first `n` words of memory from an address on.
unfoldable pub memory_words : ℕ → Ram → ℕ → List ℕ
memory_words zero ram a = []
memory_words (suc n) ram a = memory_words n ram a ++ load 2 ram (a + 2 * n) ∷ []

-- The loop that writes a sector sends the words of the buffer to the data port, in order and behind what was sent
-- before.
write_words-data :
    (ram : Ram) (port buffer n : ℕ) (t : Trace)
    → port < 2 ^ 16
    → words_sent port (for_up n 0 (write_word ram port buffer) t)
      ≡ words_sent port t ++ memory_words n ram buffer
unfolding words_sent memory_words write_word
write_words-data ram port buffer n t small =
    for_up_inv (λ i u. words_sent port u ≡ words_sent port t ++ memory_words i ram buffer)
      (write_word ram port buffer) n 0 n t step (omega arith) (sym (append-nil (words_sent port t)))
  where
    step :
        (i : ℕ) (u : Trace)
        → 0 ≤ i
        → i < n
        → words_sent port u ≡ words_sent port t ++ memory_words i ram buffer
        → words_sent port (write_word ram port buffer i u)
          ≡ words_sent port t ++ memory_words (suc i) ram buffer
    step i u _ _ h =
        let same : (u16 port == port) ≡ true = (==_iff (u16 port) port).1 (omega arith) in
        let fits : u16 (load 2 ram (buffer + 2 * i)) ≡ load 2 ram (buffer + 2 * i) =
          omega (arith, load-lt 2 ram (buffer + 2 * i)) in
        rw (same, h, fits)
          (append_assoc (words_sent port t) (memory_words i ram buffer)
            (load 2 ram (buffer + 2 * i) ∷ []))

base-lt : (channel : ℕ) → channel < 2 → (channel_at channel).base < 2 ^ 16
base-lt zero h = omega arith
base-lt (suc zero) h = omega arith
base-lt (suc (suc n)) h = absurd (omega arith)

flush-words :
    (channel : ℕ)
    → channel < 2
    → (t : Trace)
    → words_sent (channel_at channel).base (ide_write channel 0x07 0xE7 t)
      ≡ words_sent (channel_at channel).base t
unfolding ide_write words_sent
flush-words zero h t = refl
flush-words (suc zero) h t = refl
flush-words (suc (suc n)) h t = absurd (omega arith)

flush-written :
    (channel : ℕ)
    → channel < 2
    → (t : Trace)
    → last_written (ide_write channel 0x07 0xE7 t) ((channel_at channel).base + 7) ≡ 0xE7
unfolding ide_write last_written
flush-written zero h t = refl
flush-written (suc zero) h t = refl
flush-written (suc (suc n)) h t = absurd (omega arith)

-- A sector call on a drive that is busy for `n` reads of the status at the start and for `m` after the command.
module _ (dev : Device) (fuel channel drive lba buffer n m : ℕ) (ram : Ram) (t : Trace) where
  -- The trace after the command, and the status that the poll then reads.
  abbrev pub commanded : ℕ → Trace
  commanded command =
      ide_write channel 0x07 command (send_address channel drive lba (polled dev channel (suc n) t))

  abbrev pub answer : ℕ → ℕ × Trace
  answer command =
      ide_read dev channel 0x07 (polled dev channel (suc m) (pause dev channel (commanded command)))

  abbrev port : ℕ
  port = (channel_at channel).base

  -- For one of the four drives, busy for `n` reads of the status at the start and for `m` after the command, both
  -- fewer than the fuel: the command to read goes out with the registers set for the block of the drive (28 bits of
  -- it) and one sector. On an error of the poll after it, the call comes back with 1 and memory is as before. Without
  -- an error it comes back with 0: 256 words are read from the data port, the k-th of them stands at the k-th place of
  -- the buffer, and no byte outside its 512 has changed.
  pub ide_read_sector-outcome :
      channel < 2
      → drive < 2
      → n < fuel
      → m < fuel
      → BusyFor dev channel n t
      → BusyFor dev channel m (pause dev channel (commanded 0x20))
      → let (state, u) = answer 0x20 in
        IsCommanded channel drive lba 0x20 (commanded 0x20)
        × (((is_set (report state) ≡ true)
              × (ide_read_sector dev fuel channel drive lba buffer (ram, t) ≡ some (1, ram, u)))
            ⊎ ((is_set (report state) ≡ false)
                × (ram' : Ram) × (ide_read_sector dev fuel channel drive lba buffer (ram, t)
                    ≡ some (0, ram', drained dev port 256 u))
                × ((k : ℕ) → k < 256 → load 2 ram' (buffer + 2 * k) ≡ word_read dev port k u)
                × ((a : ℕ) → (a < buffer) ⊎ (buffer + 2 * 256 ≤ a) → ram' a ≡ ram a)))
  unfolding ide_read_sector
  ide_read_sector-outcome hc hd hn hm first second =
      let (state, u) = answer 0x20 in
      let poll = (ide_polling-BusyFor dev channel m fuel (commanded 0x20) hm second).1 in
      let loaded : Ram × Trace = for_up 256 0 (read_word dev port buffer) (ram, u) in
      let (same, words, outside) = read_words-Read dev port buffer 256 ram u in
      (
        command-IsCommanded channel drive lba 0x20 (polled dev channel (suc n) t) hc hd,
        elim (Bool-cases (is_set (report state))) [
          | inl e ↦
              inl (e, rw (wait_ready-BusyFor dev channel n fuel t hn first) (rw poll (rw e refl)))
          | inr e ↦ inr (
            e,
            loaded.0,
            rw (wait_ready-BusyFor dev channel n fuel t hn first)
                (rw poll (rw e (ap (λ (v : Trace). some (0, loaded.0, v)) same))),
            words,
            outside,
          )
        ],
      )

  -- The trace after the data loop of a write that starts with `u`, and the command that flushes the drive's cache.
  abbrev pub flushing : Trace → Trace
  flushing u = ide_write channel 0x07 0xE7 (for_up 256 0 (write_word ram port buffer) u)

  flushing-data :
      channel < 2
      → (u : Trace)
      → (words_sent port (flushing u) ≡ words_sent port u ++ memory_words 256 ram buffer)
        × (last_written (flushing u) (port + 7) ≡ 0xE7)
  flushing-data hc u =
      let below : port < 2 ^ 16 = base-lt channel hc in
      (
        flush-words channel hc _ ∙ write_words-data ram port buffer 256 u below,
        flush-written channel hc _,
      )

  -- For one of the four drives, busy for `n` reads of the status at the start, for `m` after the command and for `p`
  -- after the data, all fewer than the fuel: the command to write goes out with the registers set for the block of the
  -- drive (28 bits of it) and one sector. On an error of the poll after it, the call comes back with 1, and the read of
  -- the status that showed it was the last access. Without an error the 256 words of
  -- the buffer go to the data port, in order and behind what was sent before, then the command that flushes the cache,
  -- and once the drive is ready again, the call comes back with 0.
  pub ide_write_sector-outcome :
      (p : ℕ)
      → channel < 2
      → drive < 2
      → n < fuel
      → m < fuel
      → p < fuel
      → BusyFor dev channel n t
      → BusyFor dev channel m (pause dev channel (commanded 0x30))
      → BusyFor dev channel p (pause dev channel (flushing ((answer 0x30).1)))
      → let (state, u) = answer 0x30 in
        IsCommanded channel drive lba 0x30 (commanded 0x30)
        × (((is_set (report state) ≡ true)
              × (ide_write_sector dev fuel channel drive lba buffer (ram, t) ≡ some (1, u)))
            ⊎ ((is_set (report state) ≡ false)
                × (v : Trace) × (ide_write_sector dev fuel channel drive lba buffer (ram, t)
                    ≡ some (0, polled dev channel (suc p) (pause dev channel v)))
                × (words_sent port v ≡ words_sent port u ++ memory_words 256 ram buffer)
                × (last_written v (port + 7) ≡ 0xE7)))
  unfolding ide_write_sector
  ide_write_sector-outcome p hc hd hn hm hp first second third =
      let (state, u) = answer 0x30 in
      let poll = (ide_polling-BusyFor dev channel m fuel (commanded 0x30) hm second).1 in
      let last = (ide_polling-BusyFor dev channel p fuel (flushing u) hp third).0 in
      let (words, command) = flushing-data hc u in
      (
        command-IsCommanded channel drive lba 0x30 (polled dev channel (suc n) t) hc hd,
        elim (Bool-cases (is_set (report state))) [
          | inl e ↦
              inl (e, rw (wait_ready-BusyFor dev channel n fuel t hn first) (rw poll (rw e refl)))
          | inr e ↦ inr (
            e,
            flushing u,
            rw (wait_ready-BusyFor dev channel n fuel t hn first) (rw poll (rw e (rw last refl))),
            words,
            command,
          )
        ],
      )
