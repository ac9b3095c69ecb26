-- ===== src/Tests/Pages.antt =====
-- Text on the frame buffer of the other tests, and the kernel from its start with a graphics mode of 640 by 480 pixels.
use hueos.Base.{◌≡◌, refl, arith, [], ◌++◌, some, codes, Bytes}
use hueos.Multiboot.{MultibootInfo}
use hueos.Framebuffer.{framebuffer_writestring, framebuffer_clear}
use hueos.Framebuffer.Page.{Shows, type_all, empty_page, type_char}
use hueos.Framebuffer.Page.Typing.{framebuffer_writestring-Shows}
use hueos.Main.Kernel.{Kernel, halting, screen, kernel_main}
use hueos.Main.Kernel.Printed.{printed}
use hueos.Terminal.Writing
use hueos.Terminal.Writing.{new_paper}
use hueos.Main.Kernel.Lines.{Rolls}
use hueos.Tests.Video.{video, boot-Fits}
use hueos.Main.Kernel.Shown.{kernel_main-Rolls, sized_terminal}
use hueos.Vesa.Setup.Memory.{FontOnly, init_vesa_with_mbi-FontOnly}
use hueos.Terminal.{terminal_initialize, clear_vga, blank_cell, terminal_set_dimensions}
use hueos.Base.{for_cells, for_up, inl}
use hueos.Serial.{init_serial}
use hueos.Framebuffer.{framebuffer_init, framebuffer_is_active}
use hueos.Vesa.Modes.{
  parse_resolution, find_param, starts_with, drop, read_param, find_mode, matches, pick_mode,
  apply_mode,
}
use hueos.Main.Kernel.{set_up_output}
use hueos.Vesa.Setup.{init_vesa_with_mbi}
use hueos.Tests.Pixels.{panel, panel-IsMapped, panel-IsText}
use hueos.Tests.Tables.{addresses}
use hueos.Tests.Line.{line, line-Drains, line-Answers}
use hueos.Io.{Trace}
use hueos.Tests.Disks.{stack}
use hueos.Tests.Entry.{guest}
use hueos.Tests.Storage.{info}
use hueos.Tests.Boot.{kernel, plain}

framebuffer_writestring-Shows_example :
    Shows
      (framebuffer_writestring (some (codes "ab\nc")) (framebuffer_clear panel))
      (type_all 2 2 7 (codes "ab\nc") (empty_page 7))
framebuffer_writestring-Shows_example =
    framebuffer_writestring-Shows (codes "ab\nc") panel panel-IsMapped panel-IsText (omega arith)
      (omega arith) (omega arith)

-- The page after that text: the row that `b` filled, and the feed behind it, have rolled `ab` away.
rolled :
    (let p = type_all 2 2 7 (codes "ab\nc") (empty_page 7) in
      (p.glyph 0 0 ≡ b' ') × (p.glyph 1 0 ≡ b'c') × (p.row ≡ 1) × (p.col ≡ 1))
unfolding type_all type_char
rolled = (refl, refl, refl, refl)

-- 32 bits in a pixel, at 0xE0000000.
abbrev graphics : MultibootInfo
graphics = record info {
  flags = 0x1005;
  framebuffer_addr = 0xE0000000;
  framebuffer_pitch = 2560;
  framebuffer_width = 640;
  framebuffer_height = 480;
  framebuffer_bpp = 32;
  framebuffer_type = 1;
}

init_vesa_with_mbi-FontOnly_example :
    let v = init_vesa_with_mbi line (some (codes "res=80x50")) (some graphics) video in
    FontOnly video.ram v.ram × (v.term.vga_memory ≡ video.term.vga_memory)
init_vesa_with_mbi-FontOnly_example =
    init_vesa_with_mbi-FontOnly line (some (codes "res=80x50")) (some graphics) video

-- Without a graphics mode the screen stays at 80 columns and 25 rows.
sized :
    let t = sized_terminal line guest addresses stack 1 plain (some (codes "res=80x25")) kernel in
    (t.vga_width ≡ 80) × (t.vga_height ≡ 25)
unfolding set_up_output init_serial framebuffer_init terminal_initialize clear_vga blank_cell
    for_cells for_up framebuffer_is_active init_vesa_with_mbi parse_resolution find_param
    starts_with drop read_param find_mode matches pick_mode apply_mode terminal_set_dimensions
sized = (refl, refl)

kernel_main-Rolls_example :
    (let width =
        (sized_terminal line guest addresses stack 1 plain
          (some (codes "res=80x25"))
          kernel).vga_width in
      (k' : Kernel) × (all : Trace) × (kernel_main line guest addresses stack 1 0x2BADB002 plain
          (some (codes "res=80x25"))
          kernel
        ≡ some (halting k' all))
      × Rolls width 7
          (Writing.type_all width 7 (printed k'.trace) (new_paper 7))
          (screen k'.trace k'.console)
      × (before : Bytes) × (printed k'.trace
          ≡ (before ++ codes "\nHueOS kernel initialization complete!\n")
            ++ codes "Kernel is now running...\n"))
kernel_main-Rolls_example =
    kernel_main-Rolls line guest addresses stack 1 plain (some (codes "res=80x25")) [] kernel
      line-Answers line-Drains (λ there. absurd (there refl)) refl (inl refl) refl boot-Fits
      (rw (sized.0, sized.1) (omega arith))
