-- ===== src/Pmm/Tests.antt =====
-- Runs of memory/pmm.c at small inputs, and its theorems there.
use nika_kernel.Prelude.{ℕ, ◌*◌, ◌^◌, ◌≤◌, ◌<◌, ◌≡◌, ◌⊎◌, refl, arith, some, Option, none, [], suc}
use nika_kernel.Prelude.Int.{ℤ, pos}
use nika_kernel.Multiboot.{MultibootInfo, MmapEntry}
use nika_kernel.Pmm.{Pmm, page_free, set_bit, clear_bit, mark_used, mark_free, alloc_page}
use nika_kernel.Pmm.Bitmap.{IsBytes}
use nika_kernel.Pmm.Alloc.{Outcome, alloc_page-Outcome, allocs}
use nika_kernel.Pmm.Init.{pmm_init}
use nika_kernel.Pmm.Init.Reserve.{IsReserved, pmm_init-IsReserved, alloc_page_outside_kernel}
use nika_kernel.Pmm.Init.Total.{IsTame, pmm_init_total}

-- Sixteen pages, of which 3 and 11 are free.
abbrev nearly_full : Pmm
nearly_full = record { bitmap = λ i. 0xf7; bitmap_size = 2; total_pages = 16; mem_map = [] }

nearly_full-IsBytes : IsBytes nearly_full
nearly_full-IsBytes i = omega arith

first_page : (alloc_page nearly_full).0 ≡ 3 * 4096
unfolding alloc_page page_free
first_page = refl

alloc_page-Outcome_example : Outcome nearly_full 0 16 (alloc_page nearly_full)
alloc_page-Outcome_example = alloc_page-Outcome nearly_full nearly_full-IsBytes

-- The state at boot, and a loader's map with one region of 16 pages.
abbrev at_boot : Pmm
at_boot = record { bitmap = λ i. 0; bitmap_size = 0; total_pages = 0; mem_map = [] }

abbrev loader : MultibootInfo
loader = record {
  flags = 64;
  mmap_length = 24;
  mmap_addr = 0x9000;
  framebuffer_addr = 0;
  framebuffer_pitch = 0;
  framebuffer_width = 0;
  framebuffer_height = 0;
  framebuffer_bpp = 0;
  framebuffer_type = 0;
}

abbrev entries : ℕ → MmapEntry
entries a = record { size = 20; addr = 0; len = 0x10000; type = 1 }

entries-IsTame : (a : ℕ) → IsTame 24 (entries a)
entries-IsTame a = omega arith

at_boot-IsBytes : IsBytes at_boot
at_boot-IsBytes i = omega arith

abbrev state_of : Option (ℤ × Pmm) → Pmm
state_of none = at_boot
state_of (some (code, t)) = t

abbrev booted : Pmm
booted = state_of (pmm_init 20 0x200000 0x203000 entries loader 0x2badb002 at_boot)

booted_returns :
    pmm_init 20 0x200000 0x203000 entries loader 0x2badb002 at_boot ≡ some (pos 0, booted)
unfolding pmm_init mark_used set_bit mark_free clear_bit
booted_returns = refl

booted_pages : booted.total_pages ≡ 16
unfolding pmm_init mark_used mark_free set_bit clear_bit
booted_pages = refl

pmm_init_total_example :
    (t : Pmm) × (pmm_init (suc (2 ^ 20)) 0x200000 0x203000 entries loader 0x2badb002 at_boot
      ≡ some (pos 0, t))
pmm_init_total_example =
    pmm_init_total (2 ^ 20) 0x200000 0x203000 entries loader 0x2badb002 at_boot (omega arith)
      (omega arith) entries-IsTame tt (omega arith) (omega arith)

pmm_init-IsReserved_example : (pos 0 ≡ pos 0) × IsReserved 0x200000 0x203000 booted
pmm_init-IsReserved_example =
    pmm_init-IsReserved 20 0x200000 0x203000 entries loader 0x2badb002 at_boot booted (pos 0)
      at_boot-IsBytes refl (omega arith) booted_returns

alloc_page_outside_kernel_example :
    let a = (alloc_page (allocs 3 booted)).0 in (a ≡ 0) ⊎ (a < 0x200000) ⊎ (0x203000 ≤ a)
alloc_page_outside_kernel_example =
    alloc_page_outside_kernel 20 0x200000 0x203000 entries loader 0x2badb002 at_boot booted (pos 0)
      3 at_boot-IsBytes refl (omega arith) booted_returns (omega (arith, booted_pages))
