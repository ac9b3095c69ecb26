-- ===== src/Tests/Line.antt =====
-- A machine on which every port reads as 0x60: the transmitter is always empty, and the drives are never busy.
use hueos.Base.{refl, arith, [], ◌++◌, Bytes, codes, length, true}
use hueos.Base.{ℕ, ◌≡◌, false}
use hueos.Io.{Device, Trace}
use hueos.Ide.{ide_read}
use hueos.Ide.Polling.{polled, busy, BusyFor, wait_ready-BusyFor}
use hueos.Ide.Detection.Filling.{Answers}
use hueos.Serial.{is_transmit_empty, serial_write, serial_write_hex}
use hueos.Serial.Sending.{sent, with_cr, Drains, Sends, statuses, serial_write-sent}
use hueos.Serial.Hex.{read_hex, AreHex, serial_write_hex-sent}

abbrev pub line : Device
line = record { read8 = λ t port. 0x60; read16 = λ t port. 0; read32 = λ t port. 0 }

pub line-Drains : Drains line 1
unfolding is_transmit_empty statuses
line-Drains t = (0, omega arith, omega arith)

ready : (channel : ℕ) (t : Trace) → busy line channel t ≡ false
unfolding ide_read
ready channel t = refl

ready-BusyFor : (channel : ℕ) (t : Trace) → BusyFor line channel 0 t
unfolding polled
ready-BusyFor channel t = ((λ k lt. absurd (omega arith)), ready channel t)

pub line-Answers : Answers line 1
line-Answers channel t small = (
  polled line channel 1 t,
  wait_ready-BusyFor line channel 0 1 t (omega arith) (ready-BusyFor channel t),
)

serial_write-sent_example :
    Sends (sent [] ++ with_cr (codes "ok\n")) (serial_write line 1 true (codes "ok\n") [])
serial_write-sent_example =
    serial_write-sent line 1 (codes "ok\n") [] line-Drains
      (omega arith, (omega arith, (omega arith, tt)))

serial_write_hex-sent_example :
    (digits : Bytes) × Sends (sent [] ++ digits) (serial_write_hex line 1 true 0xDEADBEEF [])
    × (read_hex 0 digits ≡ 0xDEADBEEF)
    × (length digits ≡ 8)
    × AreHex digits
serial_write_hex-sent_example = serial_write_hex-sent line 1 0xDEADBEEF [] line-Drains (omega arith)
