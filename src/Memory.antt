-- ===== src/Memory.antt =====
-- kernel/memory.c: the size of the memory, the page frame allocator and the kernel heap.
pub mod Blocks
pub mod Map
use mathlib.Core.Option
use hueos.Base.{
  ℕ, zero, suc, ◌+◌, ◌*◌, bit_and, Option, none, some, u32, u64, ltb, leb, ◌==◌, is_set,
  if◌then◌else◌, Ram, load,
}
use hueos.Io.{Trace, to_terminal}
use hueos.Multiboot.{MultibootInfo}

-- The two static variables.
pub record Memory : Type 0 where
  pub memory_end : ℕ
  pub placement_address : ℕ

abbrev pub page_size : ℕ
page_size = 4096

abbrev pub boot_memory : Memory
boot_memory = record { memory_end = 0; placement_address = 0x100000 }

-- `struct multiboot_mmap_entry`, packed: `size` at 0, `addr` at 4, `len` at 12, `type` at 20.
pub record MmapEntry : Type 0 where
  pub size : ℕ
  pub addr : ℕ
  pub len : ℕ
  pub type : ℕ

unfoldable pub mmap_entry : Ram → ℕ → MmapEntry
mmap_entry ram a = record {
  size = load 4 ram a;
  addr = load 8 ram (a + 4);
  len = load 8 ram (a + 12);
  type = load 4 ram (a + 20);
}

-- The body of the loop over the map, but for its step to the next entry.
unfoldable pub take_region : MmapEntry → ℕ × Trace → ℕ × Trace
take_region e (memory_end, t) =
    let top = u64 (e.addr + e.len) in
    if e.type == 1
    then (
      if ltb memory_end top then u32 top else memory_end,
      to_terminal "Available memory region found\n" t,
    )
    else (memory_end, t)

-- `while ((uint32_t)mmap < end)`; `none` means that the fuel ran out.
unfoldable pub mmap_loop : ℕ → Ram → ℕ → ℕ → ℕ × Trace → Option (ℕ × Trace)
mmap_loop zero ram end mmap s = none
mmap_loop (suc fuel) ram end mmap s =
    let e = mmap_entry ram mmap in
    let rest = mmap_loop fuel ram end (u32 (u32 (mmap + e.size) + 4)) (take_region e s) in
    if ltb mmap end then rest else some s

finish : Memory → ℕ × Trace → Memory × Trace
finish m (memory_end, t) =
    (record m { memory_end = memory_end }, to_terminal "Memory initialization complete\n" t)

unfoldable pub init_memory : ℕ → Ram → MultibootInfo → Memory × Trace → Option (Memory × Trace)
unfolding mmap_loop finish
init_memory fuel ram mbi (m, t₀) =
    let t = to_terminal "Initializing memory management...\n" t₀ in
    if is_set (bit_and mbi.flags 0x40)
    then Option.map (finish m) (
        mmap_loop fuel ram (u32 (mbi.mmap_addr + mbi.mmap_length)) mbi.mmap_addr
          (m.memory_end, to_terminal "Memory map available\n" t))
    else some (finish m (u32 (u32 (mbi.mem_upper + 1024) * 1024), t))

-- 0 for failure. The address has moved on by then, whatever the outcome.
unfoldable pub allocate_frame : Memory × Trace → ℕ × Memory × Trace
allocate_frame (m, t) =
    let frame = m.placement_address in
    let m' : Memory = record m { placement_address = u32 (m.placement_address + page_size) } in
    if leb m'.memory_end m'.placement_address
    then (0, m', to_terminal "ERROR: Out of memory!\n" t)
    else (frame, m', t)

-- `(size + 3) & ~3`
abbrev pub align4 : ℕ → ℕ
align4 size = bit_and (u32 (size + 3)) 0xfffffffc

unfoldable pub kmalloc : ℕ → Memory × Trace → ℕ × Memory × Trace
kmalloc size (m, t) =
    let ret = m.placement_address in
    let m' : Memory = record m { placement_address = u32 (m.placement_address + align4 size) } in
    if size == 0
    then (0, m, t)
    else if leb m'.memory_end m'.placement_address
    then (0, m', to_terminal "ERROR: Kernel heap exhausted!\n" t)
    else (ret, m', t)
