-- ===== src/Tests/Bus.antt =====
-- A PCI bridge with one value everywhere, whose ports read 8: an adapter that is always ready.
use hueos.Base.{ℕ, ◌+◌, ◌<◌, ◌≤◌, ◌≡◌, ◌↔◌, refl, [], true, length}
use hueos.Base.{◌%◌, ◌==◌, ◌∷◌, if◌then◌else◌}
use hueos.Io.{Device, Trace, out32}
use hueos.Scsi.{buslogic_wait_ready}
use hueos.Scsi.Controllers.{boot_scsi, init_scsi}
use hueos.Scsi.Controllers.Found.{IsFound, init_scsi-IsFound}
use hueos.Scsi.Ready.{ready, read_times, buslogic_wait_ready-bounded}

abbrev bridge : Device
bridge = record { read8 = λ t port. 8; read16 = λ t port. 0; read32 = λ t port. 0x1040104B }

buslogic_wait_ready-bounded_example :
    (((buslogic_wait_ready bridge 0x330 []).0 ≡ true)
      ↔ ((n : ℕ) × (n < 10000) × (ready bridge 0x330 (read_times bridge 0x330 n []) ≡ true)))
    × (length (buslogic_wait_ready bridge 0x330 []).1 ≤ 0 + 10000)
buslogic_wait_ready-bounded_example = buslogic_wait_ready-bounded bridge 0x330 []

-- An adapter in every place: what a configuration read gives goes by the register that was asked for.
asked : Trace → ℕ
asked (out32 p v ∷ t) = v % 256
asked _ = 0

abbrev adapters : Device
adapters = record {
  read8 = λ t port. 8;
  read16 = λ t port. 0;
  read32 = λ t port.
      (if asked t == 0
        then 0x1040104B
        else if asked t == 0x08
        then 0x01000000
        else if asked t == 0x10
        then 0x0330
        else 0x0B);
}

init_scsi-IsFound_example : IsFound adapters ((init_scsi adapters (boot_scsi, [])).0)
init_scsi-IsFound_example = init_scsi-IsFound adapters boot_scsi [] refl
