-- ===== src/Heap/Tests.antt =====
-- Runs of memory/heap.c at small inputs, and its theorems there.
use nika_kernel.Prelude.{ℕ, ◌+◌, ◌≡◌, ◌≢◌, refl, arith, some, [], ◌∷◌, ◌++◌}
use nika_kernel.Pmm.{Pmm, page_free, set_bit, alloc_page}
use nika_kernel.Heap.{Block, Heap, header_size, write, malloc, free}
use nika_kernel.Heap.Chain.{Cells, Linked, IsArea}
use nika_kernel.Heap.FirstFit.{cell, taken, found}
use nika_kernel.Heap.Malloc.{Allocated, malloc-Allocated}
use nika_kernel.Heap.Free.{Freed, free-Freed}
use nika_kernel.Heap.Grow.{page_cell, malloc_grows}

-- The heap on the page at 0x3000: 100 bytes in use, and the rest.
abbrev allocator : Pmm
allocator = record { bitmap = λ i. 0xef; bitmap_size = 2; total_pages = 16; mem_map = [] }

abbrev headers : ℕ → Block
headers =
    write
      (write (λ _. record { size = 0; flags = 0; next = 0 }) 0x3000
        (record { size = 100; flags = 1; next = 0x3070 }))
      0x3070 (record { size = 3972; flags = 0; next = 0 })

abbrev heap : Heap
heap = record {
  pmm = allocator;
  block = headers;
  heap_start = 0x3000;
  heap_end = 0x3000;
  heap_limit = 0x4000;
}

abbrev cells : Cells
cells = cell 0x3000 100 1 ∷ cell 0x3070 3972 0 ∷ []

heap-IsArea : IsArea headers 0x3000 0x4000 cells
heap-IsArea = record {
  linked = omega arith;
  tiles = omega arith;
  above = omega arith;
  below = omega arith;
}

malloc-Allocated_example :
    (ptr : ℕ) × (t : Heap) × (malloc 1 3 200 heap ≡ some (ptr, t))
    × Allocated 200 cells 0x4000 heap ptr t
malloc-Allocated_example =
    malloc-Allocated 0 3 200 0x4000 heap cells heap-IsArea (omega arith) found_rest
  where
    found_rest : found 200 cells ≢ 0
    found_rest = unfold found in omega arith

free-Freed_example :
    (t : Heap) × (free 3 0x300c heap ≡ some t) × Freed 0x4000 heap [] (cell 0x3070 3972 0 ∷ []) t
free-Freed_example =
    free-Freed 3 0x4000 heap [] (cell 0x3000 100 1) (cell 0x3070 3972 0 ∷ []) heap-IsArea
      (omega arith)

-- A request of 4000 bytes does not fit: the rest of the first page, behind `heap_end`, is lost.
malloc_grows_example :
    (t : Heap) × (malloc 2 4 4000 heap ≡ some (0x4000 + header_size, t))
    × Linked t.block 0 t.heap_start ((cell 0x3000 100 1 ∷ []) ++ taken 4000 (page_cell 0x4000) [])
    × (t.heap_end ≡ 0x4000)
malloc_grows_example =
    malloc_grows 0 4 4000 0x4000 0x4000 (set_bit allocator 4) heap [] (cell 0x3000 100 1)
      (cell 0x3070 3972 0 ∷ []) heap-IsArea refl nothing_fits gives (omega arith) (omega arith)
      (omega arith) (omega arith)
  where
    nothing_fits : found 4000 cells ≡ 0
    nothing_fits = unfold found in refl

    gives : alloc_page allocator ≡ (0x4000, set_bit allocator 4)
    gives = unfold alloc_page page_free in refl
