-- ===== src/Tests/Drives.antt =====
-- A machine with an ATA drive, the first of the first channel, and an ATAPI drive, the second of the second one.
use hueos.Base.{
  ℕ, zero, suc, ◌<◌, ◌≡◌, ◌≢◌, inl, inr, refl, arith, Option, none, some, true, false, Bool-cases,
  ◌==◌, if◌then◌else◌, [],
}
use hueos.Io.{Trace, Device, last_written}
use hueos.Serial.{is_transmit_empty, carry_out}
use hueos.Serial.Sending.{statuses, Drains}
use hueos.Ide.{Ide, ide_read}
use hueos.Ide.Polling.{polled, busy, wait_ready-BusyFor}
use hueos.Ide.Detection.{boot_ide, ide_detect_devices}
use hueos.Ide.Detection.Filling.{Answers}
use hueos.Ide.Detection.Present.{Selected, IsSignature, HasDrives, Lists, found}
use hueos.Ide.Detection.Found.{ide_detect_devices-Lists}

-- The kinds of the drives.
abbrev two : ℕ → ℕ → Option ℕ
two zero zero = some 0
two zero (suc d) = none
two (suc c) zero = none
two (suc c) (suc d) = some 1

-- What a port reads as, by the drives that were selected last.
abbrev port_value : ℕ → ℕ → ℕ → ℕ
port_value first second port =
    if port == 0x3FD
    then 0x60
    else if port == 0x1F7
    then if first == 0xA0 then 0x50 else 0
    else if port == 0x177
    then if second == 0xB0 then 0x50 else 0
    else if port == 0x174
    then 0x14
    else if port == 0x175
    then 0xEB
    else 0

abbrev machine : Device
machine = record {
  read8 = λ t port. port_value (last_written t 0x1F6) (last_written t 0x176) port;
  read16 = λ t port. 0x2020;
  read32 = λ t port. 0;
}

machine-Drains : Drains machine 1
unfolding is_transmit_empty statuses
machine-Drains t = (0, omega arith, omega arith)

never_busy : (channel : ℕ) (t : Trace) → channel < 2 → busy machine channel t ≡ false
unfolding ide_read
never_busy zero t small = elim (Bool-cases (last_written t 0x1F6 == 0xA0)) [
  | inl e ↦ rw e refl
  | inr e ↦ rw e refl
]
never_busy (suc zero) t small = elim (Bool-cases (last_written t 0x176 == 0xB0)) [
  | inl e ↦ rw e refl
  | inr e ↦ rw e refl
]
never_busy (suc (suc n)) t small = absurd (omega arith)

machine-Answers : Answers machine 1
unfolding polled
machine-Answers channel t small = (
  polled machine channel 1 t,
  wait_ready-BusyFor machine channel 0 1 t (omega arith)
      ((λ k lt. absurd (omega arith)), never_busy channel t small),
)

absent :
    (c d : ℕ) (t : Trace)
    → c < 2
    → d < 2
    → two c d ≡ none
    → Selected c d t
    → (ide_read machine c 0x07 t).0 ≡ 0
unfolding ide_read
absent zero zero t hc hd e h = cc
absent zero (suc zero) t hc hd e h = rw h refl
absent (suc zero) zero t hc hd e h = rw h refl
absent (suc zero) (suc zero) t hc hd e h = cc
absent zero (suc (suc d)) t hc hd e h = absurd (omega arith)
absent (suc zero) (suc (suc d)) t hc hd e h = absurd (omega arith)
absent (suc (suc c)) d t hc hd e h = absurd (omega arith)

present :
    (c d k : ℕ) (t : Trace)
    → c < 2
    → d < 2
    → two c d ≡ some k
    → Selected c d t
    → (ide_read machine c 0x07 t).0 ≢ 0
unfolding ide_read
present zero zero k t hc hd e h = rw h (omega arith)
present zero (suc d) k t hc hd e h = cc
present (suc zero) zero k t hc hd e h = cc
present (suc zero) (suc zero) k t hc hd e h = rw h (omega arith)
present (suc zero) (suc (suc d)) k t hc hd e h = absurd (omega arith)
present (suc (suc c)) d k t hc hd e h = absurd (omega arith)

signature :
    (c d k : ℕ) (t : Trace)
    → c < 2
    → d < 2
    → two c d ≡ some k
    → Selected c d t
    → IsSignature k
        (ide_read machine c 0x04 t).0
        (ide_read machine c 0x05 (ide_read machine c 0x04 t).1).0
unfolding ide_read
signature zero zero k t hc hd e h = inl (cc, refl, refl)
signature zero (suc d) k t hc hd e h = cc
signature (suc zero) zero k t hc hd e h = cc
signature (suc zero) (suc d) k t hc hd e h = inr (inl (cc, refl, refl))
signature (suc (suc c)) d k t hc hd e h = absurd (omega arith)

machine-HasDrives : HasDrives machine two
machine-HasDrives = record { absent = absent; present = present; signature = signature }

ide_detect_devices-Lists_example :
    (s' : Ide) × (u : Trace) × (all : Trace) × (ide_detect_devices machine 1 (boot_ide, [])
      ≡ some (s', u))
    × Lists s' (found two)
    × (carry_out machine 1 true u ≡ some all)
ide_detect_devices-Lists_example =
    ide_detect_devices-Lists machine two 1 true boot_ide [] machine-HasDrives machine-Answers
      machine-Drains refl refl
