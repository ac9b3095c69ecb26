-- ===== src/Tests/Storage.antt =====
-- A small memory map, and the allocators above it.
use hueos.Base.{
  ◌+◌, ◌%◌, ◌≤◌, ◌≡◌, ◌≢◌, refl, arith, ◌∷◌, [], ◌++◌, List, some, length, Ram, store, load, codes,
}
use hueos.Io.{to_terminal}
use hueos.Multiboot.{MultibootInfo}
use hueos.Memory.{Memory, MmapEntry, mmap_entry, init_memory, allocate_frame, kmalloc, page_size}
use hueos.Memory.Blocks.{
  Request, frame, heap, blocks, InOrder, blocks-InOrder, allocate_frame-kmalloc,
}
use hueos.Memory.Map.{highest, announced, init_memory-highest}
use hueos.Numbers.{append_number, number_string}
use hueos.Numbers.ReadBack.{read_from, AllDigits, numbers_read_back}

abbrev memory : Memory
memory = record { memory_end = 0x800000; placement_address = 0x100000 }

abbrev requests : List Request
requests = frame ∷ heap 5 ∷ frame ∷ []

blocks-InOrder_example : InOrder 0x100000 0x800000 (blocks requests (memory, []))
blocks-InOrder_example = blocks-InOrder requests memory [] (omega arith)

abbrev full : Memory
full = record { memory_end = 0x100000; placement_address = 0x100000 }

allocate_frame-kmalloc_example :
    (let (p, m', t') = kmalloc 5 (memory, []) in
      let (f, m'', t'') = allocate_frame (m', t') in
      (p ≡ 0x100000) × (f ≡ p + 8) × (f % page_size ≢ 0))
allocate_frame-kmalloc_example =
    allocate_frame-kmalloc 5 memory [] (omega arith) (omega arith) (omega arith) (omega arith)
      (omega arith)

-- One available region of 15 MiB from 1 MiB on; the map is at 0x9000.
abbrev map_ram : Ram
map_ram =
    store 4 (store 8 (store 8 (store 4 (λ _. 0) 0x9000 20) 0x9004 0x100000) 0x900C 0xF00000) 0x9014
      1

abbrev region : MmapEntry
region = record { size = 20; addr = 0x100000; len = 0xF00000; type = 1 }

region_read : region ≡ mmap_entry map_ram 0x9000
unfolding store load mmap_entry
region_read = refl

abbrev pub info : MultibootInfo
info = record {
  flags = 0x40;
  mem_lower = 640;
  mem_upper = 15360;
  boot_device = 0;
  cmdline = 0;
  mods_count = 0;
  mods_addr = 0;
  syms = [];
  mmap_length = 24;
  mmap_addr = 0x9000;
  drives_length = 0;
  drives_addr = 0;
  config_table = 0;
  boot_loader_name = 0;
  apm_table = 0;
  vbe_control_info = 0;
  vbe_mode_info = 0;
  vbe_mode = 0;
  vbe_interface_seg = 0;
  vbe_interface_off = 0;
  vbe_interface_len = 0;
  framebuffer_addr = 0;
  framebuffer_pitch = 0;
  framebuffer_width = 0;
  framebuffer_height = 0;
  framebuffer_bpp = 0;
  framebuffer_type = 0;
  color_info = [];
}

init_memory-highest_example :
    init_memory 25 map_ram info (full, [])
    ≡ some (
      record full { memory_end = highest 0x100000 (region ∷ []) },
      to_terminal "Memory initialization complete\n" (
          announced (region ∷ []) (
            to_terminal "Memory map available\n"
              (to_terminal "Initializing memory management...\n" []))),
    )
init_memory-highest_example =
    init_memory-highest (region ∷ []) map_ram info full [] (omega arith) (omega arith)
      (omega arith, region_read, omega arith, omega arith) ((λ _. omega arith), tt)

numbers_read_back_example :
    (append_number 1280 (codes "w=") ≡ codes "w=" ++ number_string 1280)
    × (read_from 0 (number_string 1280) ≡ 1280)
    × AllDigits (number_string 1280)
    × (length (number_string 1280) ≤ 10)
numbers_read_back_example = numbers_read_back 1280 (codes "w=") (omega arith)
