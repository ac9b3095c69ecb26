-- ===== src/Tests/Drive.antt =====
-- An IDE controller whose status is always the same, with a drive that gives the number of events as its data.
use hueos.Base.{◌⊎◌, ◌*◌, ◌++◌, Ram, load}
use hueos.Base.{
  ℕ, ◌+◌, ◌/◌, ◌%◌, ◌^◌, ◌<◌, ◌≤◌, ◌≡◌, ◌≢◌, refl, arith, ◌∷◌, [], List, some, true, false, length,
  is_set, replicate, get_or,
}
use hueos.Io.{Trace, Device, last_written}
use hueos.Ide.{ide_read, ide_write, ide_polling, pause, ide_string_copy}
use hueos.Ide.Polling.{polled, BusyFor, report, busy, wait_ready-BusyFor, ide_polling-BusyFor}
use hueos.Ide.Registers.{ide_write-control}
use hueos.Ide.Names.{byte_of, ide_string_copy-text}
use hueos.Ide.Detection.{boot_ide, identify}
use hueos.Ide.Detection.Identified.{IsIdentified, identify-IsIdentified}
use hueos.Ide.Detection.Filling.{slot, Answers}
use hueos.Ide.Sectors.{send_address, ide_read_sector, ide_write_sector}
use hueos.Ide.Sectors.Address.{IsCommanded, addressed, send_address-addressed}
use hueos.Ide.Sectors.Transfer.{
  commanded, words_sent, memory_words, drained, word_read, answer, ide_read_sector-outcome,
  ide_write_sector-outcome,
}

-- The status 0x48: ready, and asking for data.
abbrev pub drive : Device
drive = record { read8 = λ t port. 0x48; read16 = λ t port. length t; read32 = λ t port. 0 }

idle : (channel : ℕ) (t : Trace) → busy drive channel t ≡ false
unfolding ide_read
idle channel t = refl

idle-BusyFor : (channel : ℕ) (t : Trace) → BusyFor drive channel 0 t
unfolding polled
idle-BusyFor channel t = ((λ k lt. absurd (omega arith)), idle channel t)

idle-Answers : Answers drive 1
idle-Answers channel t small = (
  polled drive channel 1 t,
  wait_ready-BusyFor drive channel 0 1 t (omega arith) (idle-BusyFor channel t),
)

ide_polling-BusyFor_example :
    (ide_polling drive 1 1 false [] ≡ some (0, polled drive 1 1 (pause drive 1 [])))
    × (ide_polling drive 1 1 true [] ≡ (
        let (state, u) = ide_read drive 1 0x07 (polled drive 1 1 (pause drive 1 [])) in
        some (report state, u)))
ide_polling-BusyFor_example =
    ide_polling-BusyFor drive 1 0 1 [] (omega arith) (idle-BusyFor 1 (pause drive 1 []))

send_address-addressed_example :
    (let u = send_address 1 1 0x1234567 [] in
      (addressed 0x170 u ≡ 0x1234567 % 2 ^ 28)
      × (last_written u (0x170 + 6) / 2 ^ 4 ≡ 14 + 1)
      × (last_written u (0x170 + 2) ≡ 1))
send_address-addressed_example = send_address-addressed 1 1 0x1234567 [] (omega arith) (omega arith)

ide_read_sector-outcome_example :
    let (state, u) = answer drive 1 0 0 0x1234567 0x5000 0 0 (λ _. 0) [] 0x20 in
    IsCommanded 0 0 0x1234567 0x20 (commanded drive 1 0 0 0x1234567 0x5000 0 0 (λ _. 0) [] 0x20)
    × (((is_set (report state) ≡ true)
          × (ide_read_sector drive 1 0 0 0x1234567 0x5000 ((λ _. 0), []) ≡ some (1, (λ _. 0), u)))
        ⊎ ((is_set (report state) ≡ false)
            × (ram' : Ram) × (ide_read_sector drive 1 0 0 0x1234567 0x5000 ((λ _. 0), [])
                ≡ some (0, ram', drained drive 0x1F0 256 u))
            × ((k : ℕ) → k < 256 → load 2 ram' (0x5000 + 2 * k) ≡ word_read drive 0x1F0 k u)
            × ((a : ℕ) → (a < 0x5000) ⊎ (0x5000 + 2 * 256 ≤ a) → ram' a ≡ 0)))
ide_read_sector-outcome_example =
    ide_read_sector-outcome drive 1 0 0 0x1234567 0x5000 0 0 (λ _. 0) [] (omega arith) (omega arith)
      (omega arith) (omega arith) (idle-BusyFor 0 []) (idle-BusyFor 0 _)

ide_write_sector-outcome_example :
    let (state, u) = answer drive 1 0 0 0x1234567 0x5000 0 0 (λ a. a) [] 0x30 in
    IsCommanded 0 0 0x1234567 0x30 (commanded drive 1 0 0 0x1234567 0x5000 0 0 (λ a. a) [] 0x30)
    × (((is_set (report state) ≡ true)
          × (ide_write_sector drive 1 0 0 0x1234567 0x5000 ((λ a. a), []) ≡ some (1, u)))
        ⊎ ((is_set (report state) ≡ false)
            × (v : Trace) × (ide_write_sector drive 1 0 0 0x1234567 0x5000 ((λ a. a), [])
                ≡ some (0, polled drive 0 1 (pause drive 0 v)))
            × (words_sent 0x1F0 v ≡ words_sent 0x1F0 u ++ memory_words 256 (λ a. a) 0x5000)
            × (last_written v (0x1F0 + 7) ≡ 0xE7)))
ide_write_sector-outcome_example =
    ide_write_sector-outcome drive 1 0 0 0x1234567 0x5000 0 0 (λ a. a) [] 0 (omega arith)
      (omega arith) (omega arith) (omega arith) (omega arith) (idle-BusyFor 0 []) (idle-BusyFor 0 _)
      (idle-BusyFor 0 _)

-- The model "QE" and spaces.
abbrev identification : List ℕ
identification = 0x5145 ∷ replicate 19 0x2020

ide_string_copy-text_example :
    ((j : ℕ)
      → 1 ≤ j
      → j < 40
      → byte_of identification j ≢ b' '
      → get_or (ide_string_copy (replicate 41 7) identification 40) 1 0 ≡ byte_of identification 1)
    × (((j : ℕ) → 1 ≤ j → j < 40 → byte_of identification j ≡ b' ')
        → get_or (ide_string_copy (replicate 41 7) identification 40) 1 0 ≡ 0)
    × (get_or (ide_string_copy (replicate 41 7) identification 40) 40 0 ≡ 0)
ide_string_copy-text_example =
    ide_string_copy-text (replicate 41 7) identification 20 1 (omega arith) (omega arith)

ide_write-control_example : last_written (ide_write 0 0x0C 2 []) 0x3F6 ≡ last_written [] 0x3F6
ide_write-control_example = ide_write-control 0 0x0C 2 [] (omega arith) (omega arith)

identify-IsIdentified_example :
    let (s', t') = identify drive 1 0 boot_ide [] in
    IsIdentified (λ k. word_read drive 0x170 k []) 0 (slot boot_ide 0) (slot s' 0)
    × (s'.device_count ≡ 1)
    × ((i : ℕ) → i ≢ 0 → slot s' i ≡ slot boot_ide i)
    × (t' ≡ drained drive 0x170 256 [])
identify-IsIdentified_example =
    identify-IsIdentified drive 1 0 boot_ide [] (omega arith) (omega arith)
