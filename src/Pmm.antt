-- ===== src/Pmm.antt =====
-- memory/pmm.c: the physical page allocator, a bitmap with one bit for each page of 4096 bytes.
-- The bitmap is the memory from the address 0x100000 on, as a function from offsets to bytes: a
-- write behind `pmm_bitmap_size` is a write to the memory there, as in the code.
pub mod Bitmap
pub mod Alloc
pub mod Init
mod Tests
use nika_kernel.Prelude.{
  ℕ, zero, suc, ◌+◌, ◌-◌, ◌*◌, ◌/◌, ◌%◌, ◌^◌, bit_and, bit_or, Bool, true, false, not, Option, none,
  some, List, [], ◌∷◌, ◌++◌, ◌==◌, ltb, if◌then◌else◌, length, u8, u32, add32, sub32, ◌<<<◌,
}

abbrev pub page_size : ℕ
page_size = 4096

abbrev pub max_mem_blocks : ℕ
max_mem_blocks = 256

-- `MemoryBlock`
pub record MemoryBlock : Type 0 where
  pub begin : ℕ
  pub end : ℕ
  pub type : ℕ
  pub acpi : ℕ

-- The static variables of the file. `memBlockCount` is the length of `mem_map`.
pub record Pmm : Type 0 where
  pub bitmap : ℕ → ℕ
  pub bitmap_size : ℕ
  pub total_pages : ℕ
  pub mem_map : List MemoryBlock

abbrev pub update : (ℕ → ℕ) → ℕ → ℕ → ℕ → ℕ
update f i v j = if i == j then v else f j

-- `!(pmm_bitmap[i / 8] & (1 << (i % 8)))`
unfoldable pub page_free : Pmm → ℕ → Bool
page_free s i = bit_and (s.bitmap (i / 8)) (1 <<< (i % 8)) == 0

abbrev pub page_used : Pmm → ℕ → Bool
page_used s i = not (page_free s i)

-- `pmm_bitmap[page / 8] |= (1 << (page % 8))`
unfoldable pub set_bit : Pmm → ℕ → Pmm
set_bit s page = record s {
  bitmap = update s.bitmap (page / 8) (u8 (bit_or (s.bitmap (page / 8)) (1 <<< (page % 8))));
}

-- `pmm_bitmap[page / 8] &= ~(1 << (page % 8))`, where `~` is taken of an `int`.
unfoldable pub clear_bit : Pmm → ℕ → Pmm
clear_bit s page = record s {
  bitmap =
      update s.bitmap (page / 8)
        (u8 (bit_and (s.bitmap (page / 8)) (2 ^ 32 - 1 - 1 <<< (page % 8))));
}

unfoldable pub mark_free : Pmm → ℕ → Pmm
mark_free s addr = clear_bit s (addr / page_size)

unfoldable pub mark_used : Pmm → ℕ → Pmm
mark_used s addr = set_bit s (addr / page_size)

-- The loop of `pmm_alloc_page` from page `i` on, with `n` pages left to look at.
unfoldable pub alloc_from : ℕ → ℕ → Pmm → ℕ × Pmm
alloc_from zero i s = (0, s)
alloc_from (suc n) i s =
    let rest = alloc_from n (i + 1) s in
    if page_free s i then (u32 (i * page_size), set_bit s i) else rest

-- The address of the page, and 0 for NULL.
unfoldable pub alloc_page : Pmm → ℕ × Pmm
unfolding alloc_from
alloc_page s = alloc_from s.total_pages 0 s
