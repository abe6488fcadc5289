-- ===== src/Heap.antt =====
-- memory/heap.c: the kernel's `malloc` and `free`, a list of blocks in pages of the page allocator.
-- `block` is the memory read as block headers: the header that stands at each address. A pointer
-- is an address, 0 is NULL, and a loop over the list takes fuel: `none` is a walk that used it up.
pub mod Chain
pub mod FirstFit
pub mod Taken
pub mod Malloc
pub mod Coalesce
pub mod Join
pub mod Free
pub mod Cut
pub mod Grow
mod Tests
use nika_kernel.Prelude.{
  ℕ, zero, suc, ◌+◌, ◌-◌, ◌*◌, ◌%◌, ◌^◌, Bool, true, false, not, ◌&&◌, Option, none, some, ◌==◌,
  leb, ltb, if◌then◌else◌, add32, sub32,
}
use nika_kernel.Prelude.Fallible.{◌>>=◌}
use nika_kernel.Pmm.{Pmm, page_size, alloc_page}

-- `HeapBlock`
pub record Block : Type 0 where
  pub size : ℕ
  pub flags : ℕ
  pub next : ℕ

-- `sizeof(HeapBlock)` on the 32-bit target: two words, and a byte in a word of its own.
abbrev pub header_size : ℕ
header_size = 12

-- The static variables of the file, the memory, and the page allocator that it calls.
pub record Heap : Type 0 where
  pub pmm : Pmm
  pub block : ℕ → Block
  pub heap_start : ℕ
  pub heap_end : ℕ
  pub heap_limit : ℕ

abbrev pub write : (ℕ → Block) → ℕ → Block → ℕ → Block
write m p b q = if p == q then b else m q

unfoldable pub heap_init : Heap → Heap
heap_init s =
    let (page, pmm) = alloc_page s.pmm in
    record {
      pmm = pmm;
      block = write s.block page (record { size = page_size - header_size; flags = 0; next = 0 });
      heap_start = page;
      heap_end = page;
      heap_limit = add32 page page_size;
    }

abbrev pub is_free : Block → Bool
is_free b = b.flags == 0

-- The walk of `malloc`: the first free block that is large enough, or NULL.
unfoldable pub find_block : ℕ → ℕ → ℕ → (ℕ → Block) → Option ℕ
find_block zero p size m = none
find_block (suc fuel) p size m =
    let rest = find_block fuel (m p).next size m in
    if p == 0 then some 0 else if is_free (m p) && leb size (m p).size then some p else rest

-- The block at `p` is taken: what is left behind `size` bytes becomes a block if a header and more
-- fit there.
unfoldable pub take_block : ℕ → ℕ → (ℕ → Block) → ℕ → Block
take_block p size m =
    let b = m p in
    let q = add32 (add32 p header_size) size in
    if ltb (add32 size header_size) b.size
    then (let left =
          write m q
            (record { size = sub32 (sub32 b.size size) header_size; flags = 0; next = b.next }) in
        write left p (record { size = size; flags = 1; next = q }))
    else write m p (record b { flags = 1 })

-- A new page behind `heap_end`.
unfoldable pub append_page : ℕ → Pmm → Heap → Heap
append_page page pmm s =
    let fresh =
      write s.block page (record { size = page_size - header_size; flags = 0; next = 0 }) in
    record s {
      pmm = pmm;
      block = write fresh s.heap_end (record (fresh s.heap_end) { next = page });
      heap_end = page;
      heap_limit = add32 s.heap_limit page_size;
    }

-- `malloc` calls itself after each new page: `grows` bounds these calls, `fuel` each walk.
unfoldable pub malloc : ℕ → ℕ → ℕ → Heap → Option (ℕ × Heap)
unfolding find_block take_block append_page
malloc zero fuel size s = none
malloc (suc grows) fuel size s = do
  p ← find_block fuel s.heap_start size s.block
  let out = alloc_page s.pmm
  let again = malloc grows fuel size (append_page out.0 out.1 s)
  if not (p == 0)
      then some (add32 p header_size, record s { block = take_block p size s.block })
      else if out.0 == 0
      then some (0, record s { pmm = out.1 })
      else again

-- The body of the walk of `free`: the block at `p` takes in the block that follows it.
unfoldable pub absorb : ℕ → (ℕ → Block) → ℕ → Block
absorb p m =
    let n = m (m p).next in
    write m p (record (m p) { size = add32 (m p).size (add32 header_size n.size); next = n.next })

-- The test of that walk.
unfoldable pub joins : ℕ → (ℕ → Block) → Bool
joins p m = is_free (m p) && (not ((m p).next == 0) && is_free (m (m p).next))

-- The walk of `free`, which joins each free block with the free blocks that follow it in the list.
unfoldable pub join_blocks : ℕ → ℕ → (ℕ → Block) → Option (ℕ → Block)
unfolding absorb joins
join_blocks zero p m = none
join_blocks (suc fuel) p m =
    let again = join_blocks fuel p (absorb p m) in
    let onward = join_blocks fuel (m p).next m in
    if p == 0 then some m else if joins p m then again else onward

unfoldable pub free : ℕ → ℕ → Heap → Option Heap
unfolding join_blocks
free fuel ptr s =
    let p = sub32 ptr header_size in
    if ptr == 0 then some s else do
      m ← join_blocks fuel s.heap_start (write s.block p (record (s.block p) { flags = 0 }))
      some (record s { block = m })
