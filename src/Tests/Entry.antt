-- ===== src/Tests/Entry.antt =====
-- The processor of a guest, and a search on a command line.
use hueos.Base.{ℕ, ◌≡◌, ◌↔◌, ◌++◌, true, false, some, Bytes, codes, ◌==◌, if◌then◌else◌}
use hueos.Hyperv.{Registers, HyperV}
use hueos.Main.{strstr_check}
use hueos.Main.Search.{strstr_check-infix}

-- The registers of a Hyper-V guest, and of one under another hypervisor.
abbrev pub guest : ℕ → Registers
guest leaf =
    if leaf == 1
    then record { eax = 0; ebx = 0; ecx = 0x80000000; edx = 0 }
    else record { eax = 0x40000006; ebx = 0x7263694D; ecx = 0x666F736F; edx = 0x76482074 }

abbrev pub off : HyperV
off = record { hyperv_detected = false; hyperv_features = 0 }

strstr_check-infix_example :
    (strstr_check (some (codes "res=80x50 verbose")) (some (codes "verbose")) ≡ true) ↔ (
      (pre : Bytes) × (post : Bytes) × (codes "res=80x50 verbose"
        ≡ pre ++ (codes "verbose" ++ post)))
strstr_check-infix_example = strstr_check-infix (codes "res=80x50 verbose") b'v' (codes "erbose")
