-- ===== src/Memory/Map.antt =====
-- `init_memory` of kernel/memory.c: the walk over the memory map of the boot loader.
use Prim.Native.Nat.{max}
use hueos.Base.{
  ℕ, zero, suc, ◌+◌, ◌-◌, ◌^◌, ◌≤◌, ◌<◌, ◌≡◌, ◌≢◌, List, [], ◌∷◌, arith, bit_and, some, length, u32,
  ◌==◌, if◌then◌else◌, Ram, lt→ltb,
}
use hueos.Io.{Trace, to_terminal}
use hueos.Multiboot.{MultibootInfo}
use hueos.Memory.{Memory, MmapEntry, mmap_entry, take_region, mmap_loop, init_memory}

-- The entries that stand in memory from `a` up to `end`, each `size + 4` bytes after the one before.
abbrev pub Entries : Ram → ℕ → ℕ → List MmapEntry → Type 0
Entries ram end a [] = end ≤ a
Entries ram end a (e ∷ es) =
    (a < end)
    × (e ≡ mmap_entry ram a)
    × (a + e.size + 4 < 2 ^ 32)
    × Entries ram end (a + e.size + 4) es

-- Every available region ends below 4 GiB.
abbrev pub Below4g : List MmapEntry → Type 0
Below4g [] = Unit {0}
Below4g (e ∷ es) = (e.type ≡ 1 → e.addr + e.len < 2 ^ 32) × Below4g es

-- The highest end of an available region, or `top` if that is higher.
abbrev pub highest : ℕ → List MmapEntry → ℕ
highest top [] = top
highest top (e ∷ es) = highest (if e.type == 1 then max top (e.addr + e.len) else top) es

-- One message for each available region.
abbrev pub announced : List MmapEntry → Trace → Trace
announced [] t = t
announced (e ∷ es) t =
    announced es (if e.type == 1 then to_terminal "Available memory region found\n" t else t)

take_region-max :
    (e : MmapEntry) (top : ℕ) (t : Trace)
    → (e.type ≡ 1 → e.addr + e.len < 2 ^ 32)
    → take_region e (top, t) ≡ (
      if e.type == 1 then max top (e.addr + e.len) else top,
      if e.type == 1 then to_terminal "Available memory region found\n" t else t,
    )
unfolding take_region
take_region-max e top t h = ground arith

length-Entries :
    (es : List MmapEntry) (ram : Ram) (end a : ℕ) → Entries ram end a es → length es ≤ end - a
length-Entries [] ram end a p = omega arith
length-Entries (e ∷ es) ram end a p =
    omega (arith, length-Entries es ram end (a + e.size + 4) p.3, p.0)

mmap_loop-highest :
    (es : List MmapEntry) (fuel : ℕ) (ram : Ram) (end a top : ℕ) (t : Trace)
    → Entries ram end a es
    → Below4g es
    → length es < fuel
    → mmap_loop fuel ram end a (top, t) ≡ some (highest top es, announced es t)
unfolding mmap_loop
mmap_loop-highest es zero ram end a top t p q h = absurd (omega arith)
mmap_loop-highest [] (suc fuel) ram end a top t p q h = ground arith
mmap_loop-highest (e ∷ es) (suc fuel) ram end a top t p q h =
    let next : u32 (u32 (a + e.size) + 4) ≡ a + e.size + 4 = omega (arith, p.2) in
    rw (← p.1, lt→ltb a end p.0, next, take_region-max e top t q.0)
      (mmap_loop-highest es fuel ram end (a + e.size + 4)
        (if e.type == 1 then max top (e.addr + e.len) else top)
        (if e.type == 1 then to_terminal "Available memory region found\n" t else t) p.3 q.1
        (omega arith))

-- With a map that is laid out as the multiboot specification says and whose available regions end
-- below 4 GiB, the walk ends after at most `mmap_length` entries, the end of memory is the highest
-- end of an available region (or what it was before, if that is higher), the placement address
-- stays, and each available region is announced once.
pub init_memory-highest :
    (es : List MmapEntry) (ram : Ram) (mbi : MultibootInfo) (m : Memory) (t : Trace)
    → bit_and mbi.flags 0x40 ≢ 0
    → mbi.mmap_addr + mbi.mmap_length < 2 ^ 32
    → Entries ram (mbi.mmap_addr + mbi.mmap_length) mbi.mmap_addr es
    → Below4g es
    → init_memory (suc mbi.mmap_length) ram mbi (m, t)
      ≡ some (
        record m { memory_end = highest m.memory_end es },
        to_terminal "Memory initialization complete\n" (
            announced es (
              to_terminal "Memory map available\n"
                (to_terminal "Initializing memory management...\n" t))),
      )
unfolding init_memory
init_memory-highest es ram mbi m t flag fits p q =
    let end : u32 (mbi.mmap_addr + mbi.mmap_length) ≡ mbi.mmap_addr + mbi.mmap_length =
      omega arith in
    let short : length es < suc mbi.mmap_length =
      omega (arith, length-Entries es ram (mbi.mmap_addr + mbi.mmap_length) mbi.mmap_addr p) in
    rw (
      lt→ltb 0 (bit_and mbi.flags 0x40) (omega arith),
      end,
      mmap_loop-highest es (suc mbi.mmap_length) ram (mbi.mmap_addr + mbi.mmap_length) mbi.mmap_addr
          m.memory_end
          (to_terminal "Memory map available\n"
            (to_terminal "Initializing memory management...\n" t))
          p q short,
    )
