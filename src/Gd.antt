-- ===== src/Gd.antt =====
-- drivers/gd.c: the framebuffer. The memory is bytes at addresses, the words of 16 and 32 bits lie in
-- it with the low byte first, and what the functions print when they fail is left out.
pub mod Text
pub mod Place
pub mod Mode
pub mod Pixel
pub mod Draws
pub mod Rect
pub mod Glyph
pub mod Cursor
pub mod Debug
pub mod Edges
pub mod Scroll
mod Tests
use nika_kernel.Prelude.{
  ℕ, zero, suc, ◌+◌, ◌-◌, ◌*◌, ◌/◌, ◌%◌, ◌^◌, bit_and, bit_or, not, ◌&&◌, ◌||◌, List, [], ◌∷◌, ◌==◌,
  ltb, leb, if◌then◌else◌, u8, u16, u32, add32, sub32, mul32, ◌<<<◌, ◌>>>◌,
}
use nika_kernel.CString.{Buffer, poke}
use nika_kernel.Multiboot.{MultibootInfo, bootloader_magic}
use nika_kernel.Paging.{Machine, map_framebuffer}

pub data GdStatus : Type 0 where
  gsuccess : GdStatus
  gerror : GdStatus

-- The variables of the file and the memory: `gd_ok`, `fb_info`, and `gdl_log` with its cursor.
pub record Screen : Type 0 where
  pub byte : Buffer
  pub gd_ok : ℕ
  pub addr : ℕ
  pub width : ℕ
  pub height : ℕ
  pub pitch : ℕ
  pub bpp : ℕ
  pub type : ℕ
  pub color : ℕ
  pub x : ℕ
  pub y : ℕ

-- The fields of `fb_info` behind the test of the type.
abbrev pub take_info : Screen → MultibootInfo → Screen
take_info s mbd = record s {
  type = u8 mbd.framebuffer_type;
  addr = u32 mbd.framebuffer_addr;
  width = u32 mbd.framebuffer_width;
  height = u32 mbd.framebuffer_height;
  pitch = u32 mbd.framebuffer_pitch;
  bpp = u8 mbd.framebuffer_bpp;
}

unfoldable pub get_framebuffer : Screen → MultibootInfo → ℕ → GdStatus × Screen
get_framebuffer s mbd magic =
    let type = u8 mbd.framebuffer_type in
    let typed = record s { type = type } in
    let full = take_info s mbd in
    if not (magic == bootloader_magic)
    then (gerror, s)
    else if bit_and mbd.flags (1 <<< 12) == 0
    then (gerror, s)
    else if not (type == 1) && not (type == 2)
    then (gerror, typed)
    else if (full.width == 0) || (full.height == 0)
    then (gerror, full)
    else if full.addr == 0
    then (gerror, full)
    else (gsuccess, full)

-- What `gd_init` does behind the call of `get_framebuffer`.
unfoldable pub gd_finish : GdStatus × Screen → Machine → GdStatus × (Screen × Machine)
gd_finish (gerror, t) m = (gerror, (t, m))
gd_finish (gsuccess, t) m =
    (gsuccess, (record t { gd_ok = 1 }, map_framebuffer m t.addr (mul32 t.height t.pitch)))

unfoldable pub gd_init : Screen → Machine → MultibootInfo → ℕ → GdStatus × (Screen × Machine)
unfolding get_framebuffer gd_finish
gd_init s m mbd magic = gd_finish (get_framebuffer s mbd magic) m

-- `fb[offset] = v` on 32 bits, and on 16 bits.
abbrev pub store32 : Buffer → ℕ → ℕ → Buffer
store32 m a v =
    poke (poke (poke (poke m a (u8 v)) (a + 1) (u8 (v >>> 8))) (a + 2) (u8 (v >>> 16))) (a + 3)
      (u8 (v >>> 24))

abbrev pub store16 : Buffer → ℕ → ℕ → Buffer
store16 m a v = poke (poke m a (u8 v)) (a + 1) (u8 (v >>> 8))

-- The colour in 16 bits: five for red, six for green and five for blue.
abbrev pub rgb565 : ℕ → ℕ
rgb565 color =
    let r = bit_and (color >>> 19) 0x1f in
    let g = bit_and (color >>> 10) 0x3f in
    let b = bit_and (color >>> 3) 0x1f in u16 (bit_or (bit_or (r <<< 11) (g <<< 5)) b)

-- The memory with the pixel written, for each depth.
unfoldable pub write_pixel : Screen → ℕ → ℕ → ℕ → Buffer
write_pixel s x y color =
    let at32 = s.addr + 4 * add32 (y * (s.pitch / 4)) x in
    let at24 = s.addr + add32 (y * s.pitch) (x * 3) in
    let at16 = s.addr + 2 * add32 (y * (s.pitch / 2)) x in
    let three =
      poke (poke (poke s.byte at24 (bit_and color 0xff)) (at24 + 1) (bit_and (color >>> 8) 0xff))
        (at24 + 2) (bit_and (color >>> 16) 0xff) in
    if s.bpp == 32
    then store32 s.byte at32 color
    else if s.bpp == 24
    then three
    else if s.bpp == 16
    then store16 s.byte at16 (rgb565 color)
    else s.byte

unfoldable pub put_pixel : Screen → ℕ → ℕ → ℕ → Screen
unfolding write_pixel
put_pixel s x y color =
    if s.gd_ok == 0
    then s
    else if leb s.width x || leb s.height y
    then s
    else record s { byte = write_pixel s x y color }

-- The inner loop of `draw_rect` from `j` on, at the height `y` of its row.
unfoldable pub draw_row : ℕ → ℕ → Screen → ℕ → ℕ → ℕ → Screen
unfolding put_pixel
draw_row zero j s x y color = s
draw_row (suc more) j s x y color =
    draw_row more (j + 1) (put_pixel s (add32 x j) y color) x y color

-- The outer loop from `i` on.
unfoldable pub draw_rows : ℕ → ℕ → Screen → ℕ → ℕ → ℕ → ℕ → Screen
unfolding draw_row
draw_rows zero i s x y w color = s
draw_rows (suc more) i s x y w color =
    draw_rows more (i + 1) (draw_row w 0 s x (add32 y i) color) x y w color

unfoldable pub draw_rect : Screen → ℕ → ℕ → ℕ → ℕ → ℕ → Screen
unfolding draw_rows
draw_rect s x y w h color = if s.gd_ok == 0 then s else draw_rows h 0 s x y w color

unfoldable pub clear : Screen → ℕ → Screen
unfolding draw_rect
clear s color = if s.gd_ok == 0 then s else draw_rect s 0 0 s.width s.height color

-- `memmove` of the C library, which the kernel declares and calls.
abbrev pub memmove : Buffer → ℕ → ℕ → ℕ → Buffer
memmove m dest src n a = if leb dest a && ltb a (dest + n) then m (src + (a - dest)) else m a

abbrev pub bytes_per_line : Screen → ℕ
bytes_per_line s = mul32 s.pitch (s.bpp / 8)

-- The memory with the lines moved up.
abbrev pub shifted : Screen → ℕ → Buffer
shifted s pixels =
    let line = bytes_per_line s in
    memmove s.byte s.addr (s.addr + mul32 pixels line) (mul32 (sub32 s.height pixels) line)

unfoldable pub scroll_screen : Screen → ℕ → Screen
unfolding draw_rect
scroll_screen s pixels =
    draw_rect (record s { byte = shifted s pixels }) 0 (sub32 s.height pixels) s.width pixels 0
