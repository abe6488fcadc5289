-- ===== src/Gd/Mode.antt =====
-- drivers/gd.c: which modes of the boot loader `gd_init` takes.
use mathlib.Core.Path.{subst}
use nika_kernel.Prelude.{
  ℕ, ◌*◌, ◌/◌, ◌%◌, ◌^◌, ◌≤◌, ◌<◌, ◌≡◌, ◌⊎◌, refl, sym, ap, ◌∙◌, ◌+◌, some, leb, ltb, mul32,
  if◌then◌else◌, arith, Bool, true, false, not, ◌&&◌, ◌||◌, ◌==◌, bit_and, ◌<<<◌,
}
use nika_kernel.Multiboot.{MultibootInfo, bootloader_magic}
use nika_kernel.Paging.{Machine, map_framebuffer}
use nika_kernel.Paging.Walk.{walk, HasTables}
use nika_kernel.Paging.Supply.{Supply}
use nika_kernel.Paging.Region.{map_framebuffer-walk}
use nika_kernel.Gd.{
  GdStatus, gsuccess, gerror, Screen, take_info, get_framebuffer, gd_finish, gd_init,
}
use nika_kernel.Gd.Place.{IsFramebuffer}

-- The tests of the code, as one.
abbrev pub accepts : Screen → MultibootInfo → ℕ → Bool
accepts s mbd magic =
    let t = take_info s mbd in
    (magic == bootloader_magic)
    && not (bit_and mbd.flags (1 <<< 12) == 0)
    && ((t.type == 1) || (t.type == 2))
    && not (t.width == 0)
    && not (t.height == 0)
    && not (t.addr == 0)

accepted :
    (s : Screen) (mbd : MultibootInfo) (magic : ℕ)
    → accepts s mbd magic ≡ true
    → get_framebuffer s mbd magic ≡ (gsuccess, take_info s mbd)
unfolding get_framebuffer
accepted s mbd magic ok = ground arith

refused :
    (s : Screen) (mbd : MultibootInfo) (magic : ℕ)
    → accepts s mbd magic ≡ false
    → ((get_framebuffer s mbd magic).0 ≡ gerror) × ((get_framebuffer s mbd magic).1.gd_ok ≡ s.gd_ok)
unfolding get_framebuffer
refused s mbd magic bad = ground arith

-- When the magic number is right, there is a framebuffer of type 1 or 2, and its dimensions and address
-- are not 0, `gd_init` succeeds and turns drawing on; for a mode of 32, 24 or 16 bits with rows that do
-- not overlap, at the alignment of words, and that fits the address space, the screen is then one that
-- the theorems on drawing hold for.
pub gd_init-IsFramebuffer :
    (s : Screen) (m : Machine) (mbd : MultibootInfo) (magic : ℕ)
    → accepts s mbd magic ≡ true
    → let t = take_info s mbd in
      (t.bpp ≡ 32) ⊎ (t.bpp ≡ 24) ⊎ (t.bpp ≡ 16)
      → t.width * (t.bpp / 8) ≤ t.pitch
      → t.pitch % 4 ≡ 0
      → t.height * t.pitch < 2 ^ 32
      → ((gd_init s m mbd magic).0 ≡ gsuccess)
        × ((gd_init s m mbd magic).1.0 ≡ record t { gd_ok = 1 })
        × IsFramebuffer (gd_init s m mbd magic).1.0
unfolding gd_init gd_finish
gd_init-IsFramebuffer s m mbd magic ok depth room aligned fits =
    let taken = accepted s mbd magic ok in
    let done : (gd_init s m mbd magic).1.0 ≡ record (take_info s mbd) { gd_ok = 1 } = rw taken in
    let ready : IsFramebuffer (record (take_info s mbd) { gd_ok = 1 }) = record {
      ready = λ e. ground arith;
      depth = depth;
      room = room;
      aligned = aligned;
      fits = fits;
    } in
    (rw taken, done, subst IsFramebuffer (sym done) ready)

-- Otherwise `gd_init` fails, maps nothing and leaves drawing on or off.
pub gd_init_refused :
    (s : Screen) (m : Machine) (mbd : MultibootInfo) (magic : ℕ)
    → accepts s mbd magic ≡ false
    → ((gd_init s m mbd magic).0 ≡ gerror)
      × ((gd_init s m mbd magic).1.1 ≡ m)
      × ((gd_init s m mbd magic).1.0.gd_ok ≡ s.gd_ok)
unfolding gd_init gd_finish
gd_init_refused s m mbd magic bad = failed (get_framebuffer s mbd magic) (refused s mbd magic bad)
  where
    failed :
        (out : GdStatus × Screen)
        → (out.0 ≡ gerror) × (out.1.gd_ok ≡ s.gd_ok)
        → ((gd_finish out m).0 ≡ gerror)
          × ((gd_finish out m).1.1 ≡ m)
          × ((gd_finish out m).1.0.gd_ok ≡ s.gd_ok)
    failed (gerror, t) (code, kept) = (refl, refl, kept)
    failed (gsuccess, t) (code, kept) = absurd (ground (arith, code))

-- Over a directory whose tables are distinct pages in use, for a mode whose framebuffer starts at a
-- page border, is not empty and ends below 2^32, with a page to be had from the allocator for each of
-- its pages: when the magic number is right, there is a framebuffer of type 1 or 2, and its dimensions
-- and address are not 0, `gd_init` gives GSUCCESS and turns drawing on with the mode of the loader, and
-- every address in the framebuffer's pages is then translated to itself, as present and writable with
-- write-through caching, and every other address as before; otherwise it gives GERROR, keeps the page
-- tables and leaves drawing on or off as it was.
pub gd_init-walk :
    (s : Screen) (m : Machine) (mbd : MultibootInfo) (magic : ℕ)
    → HasTables m m.kernel_page_dir
    → let t = take_info s mbd in
      let size = mul32 t.height t.pitch in
      t.addr % 4096 ≡ 0
      → size + 4096 < 2 ^ 32
      → t.addr + size ≤ 2 ^ 32
      → 0 < size
      → Supply ((size + 4095) / 4096) m.pmm
      → let out = gd_init s m mbd magic in
        (accepts s mbd magic ≡ false → (out.0 ≡ gerror) × (out.1.1 ≡ m) × (out.1.0.gd_ok ≡ s.gd_ok))
        × (accepts s mbd magic ≡ true
            → (out.0 ≡ gsuccess)
              × (out.1.0 ≡ record t { gd_ok = 1 })
              × HasTables out.1.1 m.kernel_page_dir
              × ((v : ℕ)
                  → v < 2 ^ 32
                  → walk out.1.1.word m.kernel_page_dir v ≡ (
                      if leb (t.addr / 4096) (v / 4096)
                        && ltb (v / 4096) (t.addr / 4096 + (size + 4095) / 4096)
                      then some (v / 4096 * 4096, 11)
                      else walk m.word m.kernel_page_dir v)))
unfolding gd_init gd_finish
gd_init-walk s m mbd magic h border fits top some_bytes stock = (
  gd_init_refused s m mbd magic,
  λ ok.
      let t = take_info s mbd in
      let taken = accepted s mbd magic ok in
      let (tables, walks) =
        map_framebuffer-walk m t.addr (mul32 t.height t.pitch) h border fits top some_bytes stock in
      let new : (gd_init s m mbd magic).1.1 ≡ map_framebuffer m t.addr (mul32 t.height t.pitch) =
        rw taken in
      (
        rw taken,
        rw taken,
        subst (λ (k : Machine). HasTables k m.kernel_page_dir) (sym new) tables,
        λ v word. ap (λ (k : Machine). walk k.word m.kernel_page_dir v) new ∙ walks v word,
      ),
)
