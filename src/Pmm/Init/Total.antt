-- ===== src/Pmm/Init/Total.antt =====
-- `pmm_init` of memory/pmm.c returns: the fuel that its loops need, and its result on an error.
use mathlib.Core.Path.{subst}
use nika_kernel.Prelude.{
  ℕ, zero, suc, ◌+◌, ◌-◌, ◌*◌, ◌/◌, ◌%◌, ◌^◌, ◌≤◌, ◌<◌, ◌≡◌, ◌≢◌, inl, inr, refl, arith, some, List,
  [], ◌∷◌, ◌++◌, ltb, ◌==◌, Bool-cases, add32, sym, ◌∙◌, ap, u32, ==-false_of_ne, bit_and, ◌<<<◌,
  if◌then◌else◌,
}
use nika_kernel.Prelude.Int.{ℤ, pos, negsuc}
use nika_kernel.Multiboot.{MultibootInfo, MmapEntry, bootloader_magic}
use nika_kernel.Pmm.{
  MemoryBlock, Pmm, page_size, set_bit, mark_used, mark_free, alloc_page, alloc_from,
}
use nika_kernel.Pmm.Init.{
  record_entry, memmap_loop, get_memmap, page_loop, free_blocks, fill_bitmap, pmm_init,
  bitmap_start, count_pages,
}
use nika_kernel.Pmm.Init.Blocks.{Sized, mark_used-Sized, free_blocks-Sized, fill_bitmap_small}
use nika_kernel.Pmm.Init.Loops.{page_loop_total, page_loop_inv}

-- An entry that the walk steps over without a wrap, and whose region ends below the last page.
abbrev pub IsTame : ℕ → MmapEntry → Type 0
IsTame mmap_length e = (e.size + 4 + mmap_length ≤ 2 ^ 32) × (e.addr + e.len ≤ 2 ^ 32 - page_size)

abbrev pub AllEnd : List MemoryBlock → Type 0
AllEnd [] = Unit
AllEnd (b ∷ bs) = (b.begin < 2 ^ 32) × (b.end ≤ 2 ^ 32 - page_size) × AllEnd bs

AllEnd-append :
    (bs : List MemoryBlock) (b : MemoryBlock)
    → AllEnd bs
    → b.begin < 2 ^ 32
    → b.end ≤ 2 ^ 32 - page_size
    → AllEnd (bs ++ (b ∷ []))
AllEnd-append [] b h lo hi = (lo, hi, tt)
AllEnd-append (c ∷ bs) b h lo hi = (h.0, h.1, AllEnd-append bs b h.2 lo hi)

record_entry-AllEnd :
    (n : ℕ) (e : MmapEntry) (bs : List MemoryBlock)
    → IsTame n e
    → AllEnd bs
    → AllEnd (record_entry e bs)
unfolding record_entry
record_entry-AllEnd n e bs tame h =
    let end = (e.addr + e.len) % 2 ^ 64 in
    ground (
      arith,
      AllEnd-append bs
          (record {
            begin = u32 e.addr;
            end = u32 (if ltb (2 ^ 32) end then 2 ^ 32 else end);
            type = 1;
            acpi = 0;
          })
          h,
    )

memmap_loop_total :
    (fuel : ℕ) (entry_at : ℕ → MmapEntry) (mbd : MultibootInfo) (i : ℕ) (bs : List MemoryBlock)
    → ((a : ℕ) → IsTame mbd.mmap_length (entry_at a))
    → mbd.mmap_length ≤ i + fuel * 4
    → AllEnd bs
    → (out : List MemoryBlock) × (memmap_loop (suc fuel) entry_at mbd i bs ≡ some out) × AllEnd out
unfolding memmap_loop
memmap_loop_total zero entry_at mbd i bs tame enough h = (bs, ground arith, h)
memmap_loop_total (suc fuel) entry_at mbd i bs tame enough h =
    elim (Bool-cases (ltb i mbd.mmap_length)) [
      | inl more ↦
          let e = entry_at (add32 mbd.mmap_addr i) in
          let te = tame (add32 mbd.mmap_addr i) in
          let i' = add32 i (add32 e.size 4) in
          let far : mbd.mmap_length ≤ i' + fuel * 4 = ground arith in
          rw more (
            memmap_loop_total fuel entry_at mbd i' (record_entry e bs) tame far
              (record_entry-AllEnd mbd.mmap_length e bs te h))
      | inr done ↦ (bs, rw done, h)
    ]

free_blocks_total :
    (fuel : ℕ) (bs : List MemoryBlock) (s : Pmm)
    → 2 ^ 20 ≤ fuel
    → AllEnd bs
    → (t : Pmm) × (free_blocks (suc fuel) bs s ≡ some t)
unfolding free_blocks
free_blocks_total fuel [] s enough h = (s, refl)
free_blocks_total fuel (b ∷ bs) s enough h =
    let m = page_loop_total mark_free fuel b.begin b.end s h.1 h.0 (omega arith) in
    let rest = free_blocks_total fuel bs m.0 enough h.2 in (rest.0, rw m.1 rest.1)

get_memmap_total :
    (fuel : ℕ) (entry_at : ℕ → MmapEntry) (mbd : MultibootInfo) (magic : ℕ) (s : Pmm)
    → ((a : ℕ) → IsTame mbd.mmap_length (entry_at a))
    → mbd.mmap_length ≤ fuel * 4
    → AllEnd s.mem_map
    → (out : ℤ × Pmm) × (get_memmap (suc fuel) entry_at mbd magic s ≡ some out)
      × AllEnd out.1.mem_map
unfolding get_memmap
get_memmap_total fuel entry_at mbd magic s tame enough h =
    let m = memmap_loop_total fuel entry_at mbd 0 s.mem_map tame (omega arith) h in
    elim (Bool-cases (magic == bootloader_magic)) [
      | inr bad ↦ rw bad ((negsuc 0, s), refl, h)
      | inl good ↦ rw good (elim (Bool-cases (bit_and mbd.flags (1 <<< 6) == 0)) [
        | inl absent ↦ rw absent ((negsuc 1, s), refl, h)
        | inr present ↦ rw (present, m.1) ((pos 0, record s { mem_map = m.0 }), refl, m.2)
      ])
    ]

-- With one more than 2^20 rounds of fuel, and enough for the memory map, `pmm_init` returns, for
-- every map whose entries do not wrap the 32-bit offset of the walk and end below the last page,
-- and every kernel image that ends below the last page.
pub pmm_init_total :
    (fuel ks ke : ℕ) (entry_at : ℕ → MmapEntry) (mbd : MultibootInfo) (magic : ℕ) (s : Pmm)
    → 2 ^ 20 ≤ fuel
    → mbd.mmap_length ≤ fuel * 4
    → ((a : ℕ) → IsTame mbd.mmap_length (entry_at a))
    → AllEnd s.mem_map
    → ks < 2 ^ 32
    → ke ≤ 2 ^ 32 - page_size
    → (t : Pmm) × (pmm_init (suc fuel) ks ke entry_at mbd magic s ≡ some (pos 0, t))
unfolding pmm_init
pmm_init_total fuel ks ke entry_at mbd magic s enough map_enough tame h word top =
    let m = get_memmap_total fuel entry_at mbd magic s tame map_enough h in
    let f = free_blocks_total fuel m.0.1.mem_map (fill_bitmap m.0.1) enough m.2 in
    let k = page_loop_total mark_used fuel ks ke f.0 top word (omega arith) in
    let n = (fill_bitmap m.0.1).bitmap_size in
    let sized =
      page_loop_inv mark_used (Sized n) (mark_used-Sized n) (suc fuel) ks ke f.0
        (free_blocks-Sized n (suc fuel) m.0.1.mem_map (fill_bitmap m.0.1) refl f.1) k.1 in
    let small = fill_bitmap_small m.0.1 in
    let c =
      page_loop_total mark_used fuel bitmap_start (add32 bitmap_start k.0.bitmap_size) k.0
        (omega arith) (omega arith) (omega arith) in
    (set_bit c.0 (0xb8000 / page_size), rw (m.1, f.1, k.1, c.1))

-- No page to give out, and no byte of the bitmap.
abbrev NoPages : Pmm → Type 0
NoPages s = (s.total_pages ≡ 0) × (s.bitmap_size ≡ 0)

set_bit-NoPages : (s : Pmm) (p : ℕ) → NoPages s → NoPages (set_bit s p)
unfolding set_bit
set_bit-NoPages s p h = h

mark_used-NoPages : (s : Pmm) (addr : ℕ) → NoPages s → NoPages (mark_used s addr)
unfolding mark_used
mark_used-NoPages s addr h = set_bit-NoPages s (addr / page_size) h

fill_bitmap_empty : (s : Pmm) → s.mem_map ≡ [] → s.total_pages ≡ 0 → NoPages (fill_bitmap s)
unfolding fill_bitmap count_pages
fill_bitmap_empty s e z =
    let total : count_pages s.mem_map s.total_pages ≡ 0 =
      ap (λ bs. count_pages bs s.total_pages) e ∙ z in
    (total, omega arith)

alloc_page_no_pages : (s : Pmm) → s.total_pages ≡ 0 → alloc_page s ≡ (0, s)
unfolding alloc_page alloc_from
alloc_page_no_pages s e = subst (λ n. alloc_from n 0 s ≡ (0, s)) (sym e) refl

pmm_init_ends :
    (fuel ks ke : ℕ) (entry_at : ℕ → MmapEntry) (mbd : MultibootInfo) (magic : ℕ) (s : Pmm)
    {k c : Pmm}
    → magic ≢ bootloader_magic
    → s.mem_map ≡ []
    → page_loop (suc fuel) mark_used ks ke (fill_bitmap s) ≡ some k
    → page_loop (suc fuel) mark_used bitmap_start (add32 bitmap_start k.bitmap_size) k ≡ some c
    → pmm_init (suc fuel) ks ke entry_at mbd magic s ≡ some (pos 0, set_bit c (0xb8000 / page_size))
unfolding pmm_init
pmm_init_ends fuel ks ke entry_at mbd magic s wrong no_blocks k c =
    let free : free_blocks (suc fuel) s.mem_map (fill_bitmap s) ≡ some (fill_bitmap s) =
      ap (λ bs. free_blocks (suc fuel) bs (fill_bitmap s)) no_blocks in
    rw (==-false_of_ne magic bootloader_magic wrong, free, k, c)

-- A wrong magic number does not stop the boot: `pmm_init` returns 0, the code of success, with no
-- page to give out, so that every later `pmm_alloc_page` returns NULL.
pub pmm_init_wrong_magic :
    (fuel ks ke : ℕ) (entry_at : ℕ → MmapEntry) (mbd : MultibootInfo) (magic : ℕ) (s : Pmm)
    → magic ≢ bootloader_magic
    → s.mem_map ≡ []
    → s.total_pages ≡ 0
    → 2 ^ 20 ≤ fuel
    → ks < 2 ^ 32
    → ke ≤ 2 ^ 32 - page_size
    → (t : Pmm) × (pmm_init (suc fuel) ks ke entry_at mbd magic s ≡ some (pos 0, t))
      × (alloc_page t ≡ (0, t))
pmm_init_wrong_magic fuel ks ke entry_at mbd magic s wrong no_blocks no_pages enough word top =
    let empty = fill_bitmap s in
    let none_left = fill_bitmap_empty s no_blocks no_pages in
    let k = page_loop_total mark_used fuel ks ke empty top word (omega arith) in
    let k_none =
      page_loop_inv mark_used NoPages mark_used-NoPages (suc fuel) ks ke empty none_left k.1 in
    let c =
      page_loop_total mark_used fuel bitmap_start (add32 bitmap_start k.0.bitmap_size) k.0
        (omega (arith, k_none.1)) (omega arith) (omega (arith, k_none.1)) in
    let c_none =
      page_loop_inv mark_used NoPages mark_used-NoPages (suc fuel) bitmap_start
        (add32 bitmap_start k.0.bitmap_size) k.0 k_none c.1 in
    let last = set_bit-NoPages c.0 (0xb8000 / page_size) c_none in
    (
      set_bit c.0 (0xb8000 / page_size),
      pmm_init_ends fuel ks ke entry_at mbd magic s wrong no_blocks k.1 c.1,
      alloc_page_no_pages (set_bit c.0 (0xb8000 / page_size)) last.0,
    )
