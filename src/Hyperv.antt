-- ===== src/Hyperv.antt =====
-- kernel/hyperv.c: the detection of the hypervisor. What CPUID gives for a leaf is a parameter; the write of an MSR is
-- an event.
pub mod Vendor
use hueos.Base.{ℕ, ◌∷◌, Bool, true, false, ◌&&◌, not, if◌then◌else◌, ◌==◌, bit_and, is_set}
use Prim.Native.String.{String}
use hueos.Io.{Trace, to_terminal, wrmsr}

-- The four registers after CPUID.
pub record Registers : Type 0 where
  pub eax : ℕ
  pub ebx : ℕ
  pub ecx : ℕ
  pub edx : ℕ

-- The static variables.
pub record HyperV : Type 0 where
  pub hyperv_detected : Bool
  pub hyperv_features : ℕ

unfoldable pub init_hyperv_hypercalls : HyperV × Trace → Trace
init_hyperv_hypercalls (s, t) =
    let written =
      wrmsr 0x40000000 0x0001000000000000 ∷ to_terminal "Initializing Hyper-V hypercalls...\n" t in
    if not s.hyperv_detected then t else to_terminal "Hyper-V hypercalls initialized\n" written

-- `if (hyperv_features & bit) terminal_writestring(text);`
abbrev feature : HyperV → ℕ → String → Trace → Trace
feature s bit text t = if is_set (bit_and s.hyperv_features bit) then to_terminal text t else t

unfoldable pub init_hyperv_services : HyperV × Trace → Trace
init_hyperv_services (s, t) =
    let u = to_terminal "Initializing Hyper-V integration services...\n" t in
    let u =
      feature s 0x02 "Partition Reference Time available\n"
        (feature s 0x01 "VP Runtime available\n" u) in
    let u =
      feature s 0x08 "Synthetic Timer MSRs available\n"
        (feature s 0x04 "Basic SynIC MSRs available\n" u) in
    if not s.hyperv_detected then t else to_terminal "Hyper-V integration services initialized\n" u

module _ (cpuid : ℕ → Registers) where
  unfoldable pub detect_hyperv : HyperV × Trace → Bool × HyperV × Trace
  detect_hyperv (s, t) =
      let present = is_set (bit_and (cpuid 1).ecx 0x80000000) in
      let r = cpuid 0x40000000 in
      let found = record s { hyperv_features = (cpuid 0x40000003).eax } in
      if present
      then if (r.ebx == 0x7263694D) && (r.ecx == 0x666F736F) && (r.edx == 0x76482074)
        then (true, found, to_terminal "Hyper-V hypervisor detected\n" t)
        else (false, s, t)
      else (false, s, t)

  unfoldable pub init_hyperv : HyperV × Trace → HyperV × Trace
  unfolding detect_hyperv init_hyperv_hypercalls init_hyperv_services
  init_hyperv (s, t) =
      let (detected, s, t) = detect_hyperv (s, to_terminal "Checking for Hyper-V support...\n" t) in
      let s = record s { hyperv_detected = detected } in
      let ready = init_hyperv_services (s, init_hyperv_hypercalls (s, t)) in
      if detected
      then (s, to_terminal "Hyper-V initialization complete\n" ready)
      else (s, to_terminal "Hyper-V not detected, running on bare metal or other hypervisor\n" t)
