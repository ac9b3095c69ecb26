-- ===== src/Hwinfo.antt =====
-- kernel/hwinfo.c: what CPUID says of the processor, the listing of the PCI bus and of the memory sizes. CPUID is a
-- parameter. `verbose_mode`, which nothing uses, is left out.
pub mod Identity
pub mod Bus
use Prim.Native.String.{String}
use hueos.Base.{
  ℕ, ◌+◌, ◌/◌, ◌%◌, ◌*◌, ◌^◌, ◌∷◌, List, not, if◌then◌else◌, ◌==◌, leb, bit_and, ◌>>>◌, is_set, u8,
  u32, set, for_up, Bytes,
}
use hueos.Io.{Trace, to_terminal, to_serial, terminal_char, terminal_text, serial_text}
use hueos.Hyperv.{Registers}
use hueos.Multiboot.{MultibootInfo}
use hueos.Numbers.{number_string}
use hueos.Terminal.{before_nul}

-- `cpu_info_t`
pub record CpuInfo : Type 0 where
  pub vendor_id : List ℕ
  pub vendor_string : Bytes
  pub family : ℕ
  pub model : ℕ
  pub stepping : ℕ
  pub features_edx : ℕ
  pub features_ecx : ℕ

-- `for (int i = 0; i < 4; i++) vendor[i + at] = (char)(reg >> (i * 8));`
unfoldable pub put_register : ℕ → ℕ → Bytes → Bytes
put_register at reg vendor = for_up 4 0 (λ i v. set v (i + at) (u8 (reg >>> (i * 8)))) vendor

module _ (cpuid : ℕ → Registers) where
  -- Leaf 1, if the processor has it.
  unfoldable pub read_features : ℕ → CpuInfo → CpuInfo
  read_features leaves c =
      let r = cpuid 1 in
      let found : CpuInfo = record c {
        stepping = bit_and r.eax 0xF;
        model = bit_and (r.eax >>> 4) 0xF;
        family = bit_and (r.eax >>> 8) 0xF;
        features_edx = r.edx;
        features_ecx = r.ecx;
      } in
      if leb 1 leaves then found else c

  unfoldable pub detect_cpu : CpuInfo → CpuInfo
  unfolding read_features
  detect_cpu c =
      let r = cpuid 0 in
      let id = set (set (set (set c.vendor_id 0 r.ebx) 1 r.edx) 2 r.ecx) 3 0 in
      let vendor =
        put_register 8 r.ecx (put_register 4 r.edx (put_register 0 r.ebx c.vendor_string)) in
      read_features r.eax (record c { vendor_id = id; vendor_string = set vendor 12 0 })

  unfoldable pub init_hwinfo : CpuInfo → CpuInfo
  unfolding detect_cpu
  init_hwinfo c = detect_cpu c

-- `if (register & bit) terminal_writestring(text);`
abbrev flag : ℕ → ℕ → String → Trace → Trace
flag register bit text t = if is_set (bit_and register bit) then to_terminal text t else t

-- The names of the features that the processor has.
unfoldable pub print_features : CpuInfo → Trace → Trace
print_features c t =
    let edx = c.features_edx in
    let t = flag edx (2 ^ 5) "MSR " (flag edx (2 ^ 4) "TSC " (flag edx (2 ^ 0) "FPU " t)) in
    let t = flag edx (2 ^ 23) "MMX " (flag edx (2 ^ 9) "APIC " (flag edx (2 ^ 6) "PAE " t)) in
    let t = flag edx (2 ^ 26) "SSE2 " (flag edx (2 ^ 25) "SSE " t) in
    flag c.features_ecx (2 ^ 31) "HYPERVISOR " (flag c.features_ecx (2 ^ 0) "SSE3 " t)

-- Two decimal digits.
unfoldable pub print_two : ℕ → Trace → Trace
print_two n t = terminal_char (b'0' + n % 10) ∷ terminal_char (b'0' + n / 10 % 10) ∷ t

unfoldable pub print_cpu_info : CpuInfo → Trace → Trace
unfolding print_features print_two before_nul
print_cpu_info c t =
    let t = to_terminal "================\n" (to_terminal "\nCPU Information:\n" t) in
    let t = to_terminal "Vendor: " (to_serial "\nCPU Information:\n" t) in
    let t = to_terminal "\n" (terminal_text (before_nul c.vendor_string) ∷ t) in
    let t = to_serial "\n" (serial_text (before_nul c.vendor_string) ∷ to_serial "Vendor: " t) in
    let t = print_two c.family (to_terminal "Family: " t) in
    let t = print_two c.model (to_terminal " Model: " t) in
    let t = terminal_char (b'0' + c.stepping % 10) ∷ to_terminal " Stepping: " t in
    to_terminal "\n" (print_features c (to_terminal "Features: " (to_terminal "\n" t)))

-- The three sizes; the sum is taken in 32 bits.
unfoldable pub print_sizes : ℕ → ℕ → Trace → Trace
unfolding number_string
print_sizes lower upper t =
    let t = terminal_text (number_string lower) ∷ to_terminal "Lower memory: " t in
    let t = to_terminal "Upper memory: " (to_terminal " KB\n" t) in
    let t = to_terminal " KB\n" (terminal_text (number_string upper) ∷ t) in
    let total = u32 (lower + upper) / 1024 in
    to_terminal " MB\n" (terminal_text (number_string total) ∷ to_terminal "Total RAM: " t)

unfoldable pub print_memory_map : MultibootInfo → Trace → Trace
unfolding print_sizes
print_memory_map mbi t =
    let t = to_terminal "===========\n" (to_terminal "\nMemory Map:\n" t) in
    let t = to_serial "\nMemory Map:\n" t in
    if not (is_set (bit_and mbi.flags 0x01))
    then to_terminal "Memory info not available\n" t
    else print_sizes mbi.mem_lower mbi.mem_upper t
