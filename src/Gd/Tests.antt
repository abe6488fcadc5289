-- ===== src/Gd/Tests.antt =====
-- Runs of drivers/gd.c, and its theorems on a small framebuffer.
use nika_kernel.Prelude.{
  ℕ, ◌+◌, ◌-◌, ◌*◌, ◌^◌, ◌<◌, ◌≡◌, refl, arith, inl, some, List, [], ◌∷◌, get_or, ◌&&◌, ltb, u8,
}
use nika_kernel.CString.{Buffer}
use nika_kernel.CString.Strings.{IsString}
use nika_kernel.Gd.{Screen, put_pixel, draw_rect, scroll_screen}
use nika_kernel.Gd.Text.{Font, draw_char, gdl_putchar}
use nika_kernel.Gd.Place.{IsFramebuffer, pixel}
use nika_kernel.Gd.Draws.{Draws}
use nika_kernel.Gd.Rect.{within, draw_rect-Draws}
use nika_kernel.Gd.Glyph.{lit, draw_char-Draws}
use nika_kernel.Gd.Cursor.{IsReady, moved, next_x, next_y, gdl_putchar_lem}
use nika_kernel.Console.Format.{IsFormat}
use nika_kernel.Gd.Text.{k_debug}
use nika_kernel.Gd.Debug.{k_debug-Returns}
use nika_kernel.Gd.Mode.{accepts, gd_init-walk}
use nika_kernel.Pmm.{alloc_page, page_free, set_bit}
use nika_kernel.Paging.Walk.{walk, HasTables}
use nika_kernel.Paging.Supply.{Supply}
use nika_kernel.Gd.{gsuccess, gerror, gd_init, take_info}
use nika_kernel.Prelude.{false, true, ◌/◌, leb, if◌then◌else◌}
use nika_kernel.Multiboot.{MultibootInfo}
use nika_kernel.Paging.{Machine}
use nika_kernel.Gd.Scroll.{scroll_screen-overrun}

-- A screen of 32 columns and 24 rows with the cursor at a place.
abbrev screen : ℕ → ℕ → Screen
screen x y = record {
  byte = λ a. 0;
  gd_ok = 1;
  addr = 0x1000;
  width = 32;
  height = 24;
  pitch = 128;
  bpp = 32;
  type = 1;
  color = 0xffffff;
  x = x;
  y = y;
}

screen-IsFramebuffer : (x y : ℕ) → IsFramebuffer (screen x y)
screen-IsFramebuffer x y = record {
  ready = λ e. ground arith;
  depth = inl refl;
  room = omega arith;
  aligned = refl;
  fits = omega arith;
}

screen-IsReady : (x y : ℕ) → x + 8 < 33 → y + 8 < 25 → IsReady (screen x y)
screen-IsReady x y right bottom = record {
  frame = screen-IsFramebuffer x y;
  right = omega arith;
  bottom = omega arith;
  width_fits = omega arith;
  height_fits = omega arith;
}

-- A font whose characters are diagonals.
abbrev diagonal : Font
diagonal c row = 2 ^ row

abbrev orange_pixel : List ℕ
orange_pixel = 0 ∷ 0xa5 ∷ 0xff ∷ 0 ∷ []

orange : pixel (put_pixel (screen 0 0) 3 1 0xffa500) 3 1 ≡ orange_pixel
unfolding put_pixel
orange = refl

draw_rect-Draws_example :
    Draws
      (screen 0 0)
      (draw_rect (screen 0 0) 30 20 4 2 0xffa500)
      (λ k l. within 30 4 k && within 20 2 l)
      0xffa500
draw_rect-Draws_example =
    draw_rect-Draws (screen 0 0) 30 20 4 2 0xffa500 (screen-IsFramebuffer 0 0) (omega arith)
      (omega arith)

draw_char-Draws_example :
    Draws
      (screen 0 0)
      (draw_char diagonal (screen 0 0) 8 0 65 0xff)
      (λ k l. ltb 65 128 && within 0 8 l && within 8 8 k && lit (u8 (diagonal 65 (l - 0))) (k - 8))
      0xff
draw_char-Draws_example =
    draw_char-Draws diagonal (screen 0 0) 8 0 65 0xff (screen-IsFramebuffer 0 0) (omega arith)
      (omega arith)

gdl_putchar_lem_example :
    IsReady (gdl_putchar diagonal (screen 24 16) 65)
    × ((b : Buffer) × (gdl_putchar diagonal (screen 24 16) 65
          ≡ moved (screen 24 16) b (next_x (screen 24 16) 65) (next_y (screen 24 16) 65)))
gdl_putchar_lem_example =
    gdl_putchar_lem diagonal (screen 24 16) 65 (screen-IsReady 24 16 (omega arith) (omega arith))

abbrev word : List ℕ
word = 104 ∷ 10 ∷ 105 ∷ []

abbrev word_text : Buffer
word_text j = get_or word j 0

word-IsString : IsString word_text 0 word
word-IsString = omega arith

scroll_screen-overrun_example :
    (scroll_screen (screen 0 0) 8).byte (0x1000 + 24 * 128)
    ≡ (screen 0 0).byte (0x1000 + 24 * 128 + 8 * (128 * 4))
scroll_screen-overrun_example =
    scroll_screen-overrun (screen 0 0) (screen-IsFramebuffer 0 0) (omega arith) (omega arith)
      (omega arith) (omega arith)

-- The characters of "%d%%\n".
abbrev percentage : List ℕ
percentage = 37 ∷ 100 ∷ 37 ∷ 37 ∷ 10 ∷ []

abbrev percentage_text : Buffer
percentage_text j = get_or percentage j 0

percentage-IsFormat : IsFormat 50 (λ p j. 0) (λ p. []) (λ k. 42) 0 percentage
percentage-IsFormat = ground arith

k_debug-Returns_example :
    (t : Screen) × (k_debug diagonal 50 (λ p j. 0) (λ j. 7) percentage_text (λ k. 42) (screen 0 0)
      ≡ some t)
k_debug-Returns_example =
    k_debug-Returns diagonal 50 (λ p j. 0) (λ p. []) (λ j. 7) percentage_text (λ k. 42) percentage
      (screen 0 0) (omega arith) (λ n. omega arith) (omega arith) (omega arith) percentage-IsFormat

-- A mode of 64 columns and 48 rows of 24 bits, on three pages.
abbrev mode : MultibootInfo
mode = record {
  flags = 0x1000;
  mmap_length = 0;
  mmap_addr = 0;
  framebuffer_addr = 0xfd000000;
  framebuffer_pitch = 192;
  framebuffer_width = 64;
  framebuffer_height = 48;
  framebuffer_bpp = 24;
  framebuffer_type = 1;
}

-- Pages 4, 12, 20 and 28 are free, and memory holds zeros.
abbrev machine : Machine
machine = record {
  pmm = record { bitmap = λ i. 0xef; bitmap_size = 4; total_pages = 32; mem_map = [] };
  word = λ a. 0;
  kernel_page_dir = 0x5000;
  cr3 = 0;
  paging = false;
}

machine-HasTables : HasTables machine 0x5000
machine-HasTables = record {
  bytes = λ i. omega arith;
  bound = omega arith;
  words = λ a. omega arith;
  aligned = refl;
  dir_used = unfold page_free in refl;
  table_used = λ i lt on. absurd (omega arith);
  apart = λ i j lt lt' ne on on'. absurd (omega arith);
}

three_pages : Supply 3 machine.pmm
three_pages = unfold alloc_page page_free set_bit in (omega arith, (omega arith, (omega arith, tt)))

gd_init-walk_example :
    let t = take_info (screen 0 0) mode in
    let out = gd_init (screen 0 0) machine mode 0x2badb002 in
    (accepts (screen 0 0) mode 0x2badb002 ≡ false
      → (out.0 ≡ gerror) × (out.1.1 ≡ machine) × (out.1.0.gd_ok ≡ (screen 0 0).gd_ok))
    × (accepts (screen 0 0) mode 0x2badb002 ≡ true
        → (out.0 ≡ gsuccess)
          × (out.1.0 ≡ record t { gd_ok = 1 })
          × HasTables out.1.1 0x5000
          × ((v : ℕ)
              → v < 2 ^ 32
              → walk out.1.1.word 0x5000 v ≡ (
                  if leb 0xfd000 (v / 4096) && ltb (v / 4096) 0xfd003
                  then some (v / 4096 * 4096, 11)
                  else walk machine.word 0x5000 v)))
gd_init-walk_example =
    gd_init-walk (screen 0 0) machine mode 0x2badb002 machine-HasTables refl (omega arith)
      (omega arith) (omega arith) three_pages
