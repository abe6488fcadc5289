-- ===== src/Pmm/Init.antt =====
-- `get_memmap`, `pmm_init` and `pmm_reserve_kernel` of memory/pmm.c. The addresses of the linker's
-- symbols `kernel_start` and `kernel_end` are arguments. A loop that walks addresses takes fuel,
-- since the 32-bit counter may wrap; `none` is the outcome of a loop that used its fuel up.
pub mod Loops
pub mod Blocks
pub mod Total
pub mod Reserve
use nika_kernel.Prelude.{
  ℕ, zero, suc, ◌+◌, ◌-◌, ◌*◌, ◌/◌, ◌%◌, ◌^◌, bit_and, Bool, true, false, not, ◌&&◌, Option, none,
  some, List, [], ◌∷◌, ◌++◌, ◌==◌, ltb, if◌then◌else◌, length, u32, add32, sub32, ◌<<<◌,
}
use nika_kernel.Prelude.Int.{ℤ, pos, negsuc}
use nika_kernel.Prelude.Fallible.{◌>>=◌}
use nika_kernel.Multiboot.{MultibootInfo, MmapEntry, bootloader_magic, memory_available}
use nika_kernel.Pmm.{MemoryBlock, Pmm, page_size, max_mem_blocks, set_bit, mark_free, mark_used}

-- The body of the loop over the memory map: an available region that begins below 4 GiB, cut off
-- there, while there is room. The 64-bit sum wraps, and so do the casts to 32 bits.
unfoldable pub record_entry : MmapEntry → List MemoryBlock → List MemoryBlock
record_entry e blocks =
    let end = (e.addr + e.len) % 2 ^ 64 in
    if e.type == memory_available && ltb (length blocks) max_mem_blocks && ltb e.addr (2 ^ 32)
    then blocks
      ++ (record {
        begin = u32 e.addr;
        end = u32 (if ltb (2 ^ 32) end then 2 ^ 32 else end);
        type = 1;
        acpi = 0;
      }
          ∷ [])
    else blocks

unfoldable pub memmap_loop :
    ℕ → (ℕ → MmapEntry) → MultibootInfo → ℕ → List MemoryBlock → Option (List MemoryBlock)
unfolding record_entry
memmap_loop zero entry_at mbd i blocks = none
memmap_loop (suc fuel) entry_at mbd i blocks =
    let e = entry_at (add32 mbd.mmap_addr i) in
    let rest = memmap_loop fuel entry_at mbd (add32 i (add32 e.size 4)) (record_entry e blocks) in
    if ltb i mbd.mmap_length then rest else some blocks

-- The result is the code that the function returns, with the new state. `panic` only prints.
unfoldable pub get_memmap : ℕ → (ℕ → MmapEntry) → MultibootInfo → ℕ → Pmm → Option (ℤ × Pmm)
unfolding memmap_loop
get_memmap fuel entry_at mbd magic s =
    if not (magic == bootloader_magic)
    then some (negsuc 0, s)
    else if bit_and mbd.flags (1 <<< 6) == 0
    then some (negsuc 1, s)
    else do
      blocks ← memmap_loop fuel entry_at mbd 0 s.mem_map
      some (pos 0, record s { mem_map = blocks })

-- `for (addr = from; addr < stop; addr += PAGE_SIZE) body(addr)` over `uint32_t`.
unfoldable pub page_loop : ℕ → (Pmm → ℕ → Pmm) → ℕ → ℕ → Pmm → Option Pmm
page_loop zero body addr stop s = none
page_loop (suc fuel) body addr stop s =
    let rest = page_loop fuel body (add32 addr page_size) stop (body s addr) in
    if ltb addr stop then rest else some s

unfoldable pub reserve_kernel : ℕ → ℕ → ℕ → Pmm → Option Pmm
unfolding page_loop
reserve_kernel fuel kernel_start kernel_end s = page_loop fuel mark_used kernel_start kernel_end s

unfoldable pub count_pages : List MemoryBlock → ℕ → ℕ
count_pages [] total = total
count_pages (b ∷ bs) total = count_pages bs (add32 total (sub32 b.end b.begin / page_size))

unfoldable pub free_blocks : ℕ → List MemoryBlock → Pmm → Option Pmm
unfolding page_loop
free_blocks fuel [] s = some s
free_blocks fuel (b ∷ bs) s = page_loop fuel mark_free b.begin b.end s >>= free_blocks fuel bs

abbrev pub bitmap_start : ℕ
bitmap_start = 0x100000

-- `total_pages`, and the bitmap with every page in use.
unfoldable pub fill_bitmap : Pmm → Pmm
unfolding count_pages
fill_bitmap s =
    let total = count_pages s.mem_map s.total_pages in
    let size = add32 total 7 / 8 in
    record s {
      total_pages = total;
      bitmap_size = size;
      bitmap = λ i. if ltb i size then 0xff else s.bitmap i;
    }

unfoldable pub pmm_init :
    ℕ → (kernel_start kernel_end : ℕ) → (ℕ → MmapEntry) → MultibootInfo → ℕ → Pmm → Option (ℤ × Pmm)
unfolding get_memmap fill_bitmap free_blocks reserve_kernel
pmm_init fuel kernel_start kernel_end entry_at mbd magic s = do
  (code, s) ← get_memmap fuel entry_at mbd magic s
  s ← free_blocks fuel s.mem_map (fill_bitmap s)
  s ← reserve_kernel fuel kernel_start kernel_end s
  s ← page_loop fuel mark_used bitmap_start (add32 bitmap_start s.bitmap_size) s
  some (pos 0, set_bit s (0xb8000 / page_size))
