-- ===== src/Boot/Memory.antt =====
-- core/init.c: what the processor sees of memory behind the mapping of the text screen.
use mathlib.Core.Path.{subst}
use nika_kernel.Prelude.{
  ℕ, ◌+◌, ◌*◌, ◌/◌, ◌^◌, ◌≤◌, ◌<◌, ◌≡◌, refl, sym, ap, arith, ◌∙◌, inl, inr, Option, none, some,
  ◌==◌, ltb, if◌then◌else◌,
}
use nika_kernel.Pmm.{Pmm, alloc_page}
use nika_kernel.Pmm.Bitmap.{IsBytes}
use nika_kernel.Pmm.Alloc.{Outcome, alloc_page-Outcome}
use nika_kernel.Paging.{
  Machine, map_page, map_rounds, map_physical_region, map_framebuffer, init_pages,
}
use nika_kernel.Paging.Walk.{walk}
use nika_kernel.Paging.Map.{map_page-walk}
use nika_kernel.Paging.Supply.{Supply, kernel_page_dir-map_page, walk-some_present}
use nika_kernel.Paging.Identity.{init_pages-walk}
use nika_kernel.Paging.Flag.{map_framebuffer-Kept, init_pages_total}

-- Every page below 8 MiB is mapped to itself for the kernel, the one of the text screen with
-- write-through caching, and no other page is.
abbrev pub mapped : ℕ → Option (ℕ × ℕ)
mapped v =
    if v / 4096 == 0xb8
    then some (0xb8000, 11)
    else if ltb v 0x800000
    then some (v / 4096 * 4096, 3)
    else none

below_8MiB :
    (p : Pmm) (out : ℕ × Pmm)
    → p.total_pages ≤ 2048
    → Outcome p 0 p.total_pages out
    → out.0 + 4096 ≤ 0x800000
below_8MiB p out few (inl (n, f)) = omega (arith, f.address, f.below)
below_8MiB p out few (inr f) = omega (arith, ap (λ (x : ℕ × Pmm). x.0) f.unchanged)

-- The text screen is one page.
map_vga_page :
    (m : Machine)
    → map_framebuffer m 0xb8000 4000 ≡ map_page m m.kernel_page_dir 0xb8000 0xb8000 0xa
unfolding map_framebuffer map_physical_region map_rounds
map_vga_page m = refl

-- With at most 2048 pages, three of which the allocator gives, the tables map what is said above, and
-- the next page from the allocator lies in the mapped memory.
pub map_framebuffer-init_pages :
    (m : Machine)
    → IsBytes m.pmm
    → m.pmm.total_pages ≤ 2048
    → ((a : ℕ) → m.word a < 2 ^ 32)
    → Supply 3 m.pmm
    → let t = map_framebuffer (init_pages m) 0xb8000 4000 in
      ((v : ℕ) → v < 2 ^ 32 → walk t.word t.kernel_page_dir v ≡ mapped v)
      × ((alloc_page t.pmm).0 + 4096 ≤ 0x800000)
map_framebuffer-init_pages m bytes few words stock =
    let u = init_pages m in
    let pd = u.kernel_page_dir in
    let (on, loaded, tables, walks) = init_pages-walk m bytes (omega (arith, few)) words stock in
    let there = walk-some_present u.word pd 0xb8000 (0xb8000, 3) (walks 0xb8000 (omega arith)) in
    let t = map_page u pd 0xb8000 0xb8000 0xa in
    let w =
      map_page-walk u pd 0xb8000 0xb8000 0xa tables (omega arith) (omega arith) (omega arith)
        (inl there) in
    let total : (map_framebuffer u 0xb8000 4000).pmm.total_pages ≤ 2048 =
      omega (arith, (map_framebuffer-Kept u 0xb8000 4000).1, init_pages_total m, few) in
    let seen : (v : ℕ) → v < 2 ^ 32 → walk t.word t.kernel_page_dir v ≡ mapped v = λ v word.
      ap (λ d. walk t.word d v) (kernel_page_dir-map_page u pd 0xb8000 0xb8000 0xa)
      ∙ w.1 v word
      ∙ ap (λ (o : Option (ℕ × ℕ)). if v / 4096 == 0xb8 then some (0xb8000, 11) else o)
          (walks v word) in
    let next : t.pmm.total_pages ≤ 2048 → (alloc_page t.pmm).0 + 4096 ≤ 0x800000 =
      λ bound. below_8MiB t.pmm (alloc_page t.pmm) bound (alloc_page-Outcome t.pmm w.0.bytes) in
    subst
      (λ (k : Machine).
        k.pmm.total_pages ≤ 2048
        → ((v : ℕ) → v < 2 ^ 32 → walk k.word k.kernel_page_dir v ≡ mapped v)
          × ((alloc_page k.pmm).0 + 4096 ≤ 0x800000))
      (sym (map_vga_page u)) (λ bound. (seen, next bound)) total
