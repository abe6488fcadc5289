-- ===== src/Heap/Malloc.antt =====
-- `malloc` of memory/heap.c is a first fit over the list of blocks.
use nika_kernel.Prelude.{
  ℕ, suc, ◌+◌, ◌≤◌, ◌<◌, ◌≡◌, ◌≢◌, refl, arith, some, ap, length, ==-false_of_ne,
}
use nika_kernel.Heap.{Heap, header_size, take_block, malloc}
use nika_kernel.Heap.Chain.{Cells, IsArea}
use nika_kernel.Heap.FirstFit.{found, place, live, Inserted, find_block-found, place-Inserted}
use nika_kernel.Heap.Taken.{take_block-place, found_room}

-- The outcome of a `malloc` that finds a block in the list.
pub record Allocated (size : ℕ) (cs : Cells) (hi : ℕ) (s : Heap) (ptr : ℕ) (t : Heap) : Type 0 where
  pub address : ptr ≡ found size cs + header_size
  pub area : IsArea t.block t.heap_start hi (place size cs)
  pub room :
      (n : ℕ) × Inserted (found size cs, n) (live cs) (live (place size cs))
      × (size ≤ n)
      × (n ≤ size + header_size)
  pub same_pmm : t.pmm ≡ s.pmm
  pub same_end : t.heap_end ≡ s.heap_end
  pub same_start : t.heap_start ≡ s.heap_start

-- Over a list of blocks that fills one area, with more fuel than blocks, `malloc` of a size that
-- some free block can hold returns the memory behind the header of the first such block. The list
-- fills the same area, the blocks in use are those from before and the new one, which has the size
-- asked for and at most a header more, and no page is taken from the page allocator.
pub malloc-Allocated :
    (grows fuel size hi : ℕ) (s : Heap) (cs : Cells)
    → IsArea s.block s.heap_start hi cs
    → length cs < fuel
    → found size cs ≢ 0
    → (ptr : ℕ) × (t : Heap) × (malloc (suc grows) fuel size s ≡ some (ptr, t))
      × Allocated size cs hi s ptr t
unfolding malloc
malloc-Allocated grows fuel size hi s cs area enough h =
    let r = found_room size s.heap_start hi s.heap_start s.block cs area.linked area.tiles h in
    let p =
      take_block-place size s.heap_start hi s.heap_start s.block cs area.linked area.tiles
        area.below h in
    let a = found size cs in
    (
      a + header_size,
      record s { block = take_block a size s.block },
      rw
          (
            find_block-found fuel s.heap_start size s.block cs area.linked enough,
            ==-false_of_ne a 0 h,
          )
          (ap (λ (k : ℕ). some (k, record s { block = take_block a size s.block }))
            (omega (arith, area.below))),
      record {
        address = refl;
        area = record { linked = p.0; tiles = p.1; above = area.above; below = area.below };
        room = place-Inserted size cs h;
        same_pmm = refl;
        same_end = refl;
        same_start = refl;
      },
    )
