-- ===== src/Heap/Grow.antt =====
-- What `malloc` of memory/heap.c does when no block fits: it links a page behind `heap_end`.
use mathlib.Core.List.{append_assoc}
use nika_kernel.Prelude.{
  ℕ, suc, ◌+◌, ◌-◌, ◌^◌, ◌≤◌, ◌<◌, ◌≡◌, ◌≢◌, refl, arith, true, [], ◌∷◌, ◌++◌, some, ap, ◌∙◌,
  length, length-append, add32, ==-false_of_ne,
}
use nika_kernel.Pmm.{page_size, alloc_page}
use nika_kernel.Heap.{Block, Heap, header_size, find_block, take_block, malloc}
use nika_kernel.Heap.Chain.{Cell, Cells, Linked, Tiles, Tiles-le, Linked-frame, IsArea}
use nika_kernel.Pmm.{Pmm}
use nika_kernel.Heap.{append_page}
use nika_kernel.Heap.FirstFit.{cell, fits, taken, found, find_block-found}
use nika_kernel.Heap.Taken.{Linked-taken, take_block_above}
use nika_kernel.Heap.Cut.{
  Linked-append, Tiles-mem_lt, Tiles-prefix, Linked-cut, found-append, found-append_left,
}

abbrev pub page_cell : ℕ → Cell
page_cell page = cell page (page_size - header_size) 0

fits_page : (size page : ℕ) → size ≤ page_size - header_size → fits size (page_cell page) ≡ true
unfolding fits
fits_page size page h = ground arith

module _ (page : ℕ) (pmm : Pmm) (s : Heap) (pre : Cells) (e : Cell) (post : Cells) (hi : ℕ)
    (area : IsArea s.block s.heap_start hi (pre ++ (e ∷ post))) (last : s.heap_end ≡ e.addr)
    (beyond : hi ≤ page) where
  abbrev grown : Heap
  grown = append_page page pmm s

  grown_header :
      (grown.block page ≡ record { size = page_size - header_size; flags = 0; next = 0 })
      × ((a : ℕ) → a < hi → a ≢ e.addr → grown.block a ≡ s.block a)
      × (grown.block e.addr ≡ record (s.block e.addr) { next = page })
  unfolding append_page
  grown_header =
      let inside = Tiles-mem_lt s.heap_start hi pre e post area.tiles in
      (ground arith, λ a low ne. ground (arith, ne), ground arith)

  cut_off : Linked grown.block page s.heap_start (pre ++ (e ∷ []))
  cut_off =
      Linked-cut s.block grown.block s.heap_start page s.heap_start hi pre e post area.linked
        area.tiles grown_header.1 grown_header.2

  Linked-grown : Linked grown.block 0 s.heap_start ((pre ++ (e ∷ [])) ++ (page_cell page ∷ []))
  Linked-grown =
      let h = grown_header.0 in
      Linked-append grown.block s.heap_start page 0 (pre ++ (e ∷ [])) (page_cell page ∷ []) cut_off
        (
          refl,
          omega (arith, area.above, Tiles-le s.heap_start hi (pre ++ (e ∷ post)) area.tiles),
          ap (λ (b : Block). b.size) h,
          ap (λ (b : Block). b.flags) h,
          ap (λ (b : Block). b.next) h,
        )

  module _ (size : ℕ) (fit : size ≤ page_size - header_size) (top : page + page_size < 2 ^ 32) where
    abbrev filled : ℕ → Block
    filled = take_block page size grown.block

    room : size ≤ (grown.block page).size
    room = rw (grown_header.0) fit

    page_end : page + header_size + (grown.block page).size ≡ page + page_size
    page_end = rw (grown_header.0) (omega arith)

    prefix_kept : Linked filled page s.heap_start (pre ++ (e ∷ []))
    prefix_kept =
        let t = Tiles-prefix s.heap_start hi pre e post area.tiles in
        Linked-frame grown.block filled page s.heap_start s.heap_start
          (e.addr + header_size + e.size) (pre ++ (e ∷ [])) t.0
          (λ a low high.
            take_block_above page size grown.block a (omega (arith, t.1)) room
              (omega (arith, page_end)))
          cut_off

    Linked-filled :
        Linked filled 0 s.heap_start ((pre ++ (e ∷ [])) ++ taken size (page_cell page) [])
    Linked-filled =
        let h = grown_header.0 in
        let t : Tiles page (page + page_size) (page_cell page ∷ []) = (refl, omega arith) in
        let l : Linked grown.block 0 page (page_cell page ∷ []) = (
          refl,
          omega (arith, area.above, Tiles-le s.heap_start hi (pre ++ (e ∷ post)) area.tiles),
          ap (λ (b : Block). b.size) h,
          ap (λ (b : Block). b.flags) h,
          ap (λ (b : Block). b.next) h,
        ) in
        Linked-append filled s.heap_start page 0 (pre ++ (e ∷ [])) (taken size (page_cell page) [])
          prefix_kept
          (Linked-taken size page (page + page_size) grown.block (page_cell page) [] l t top
            (fits_page size page fit))

found_page :
    (size stop p : ℕ) (m : ℕ → Block) (pre : Cells) (e : Cell) (post : Cells) (page : ℕ)
    → Linked m stop p (pre ++ (e ∷ post))
    → found size (pre ++ (e ∷ post)) ≡ 0
    → size ≤ page_size - header_size
    → found size ((pre ++ (e ∷ [])) ++ (page_cell page ∷ [])) ≡ page
unfolding found
found_page size stop p m pre e post page l none_fits fit = rw (
  append_assoc pre (e ∷ []) (page_cell page ∷ []),
  found-append size stop p m pre (e ∷ post) (e ∷ page_cell page ∷ []) l none_fits,
  found-append_left size stop p m pre e post l none_fits,
  fits_page size page fit,
)

malloc_appends :
    (grows fuel size page : ℕ) (pmm : Pmm) (s : Heap)
    → find_block fuel s.heap_start size s.block ≡ some 0
    → alloc_page s.pmm ≡ (page, pmm)
    → page ≢ 0
    → malloc (suc grows) fuel size s ≡ malloc grows fuel size (append_page page pmm s)
unfolding malloc
malloc_appends grows fuel size page pmm s none_found alloc ne =
    rw (none_found, alloc, ==-false_of_ne page 0 ne)

malloc_takes :
    (grows fuel size p : ℕ) (s : Heap)
    → find_block fuel s.heap_start size s.block ≡ some p
    → p ≢ 0
    → malloc (suc grows) fuel size s
      ≡ some (add32 p header_size, record s { block = take_block p size s.block })
unfolding malloc
malloc_takes grows fuel size p s hit ne = rw (hit, ==-false_of_ne p 0 ne)

-- When no block fits and the page allocator gives a page that lies behind the blocks, `malloc` of
-- at most a page less a header, over a list whose `heap_end` is one of its blocks and with more fuel
-- than it takes, returns the memory behind the header at the start of that page. The list then is the blocks up to
-- `heap_end` followed by those of the page, so that any block behind `heap_end` is lost from it.
pub malloc_grows :
    (grows fuel size page hi : ℕ) (pmm : Pmm) (s : Heap) (pre : Cells) (e : Cell) (post : Cells)
    → IsArea s.block s.heap_start hi (pre ++ (e ∷ post))
    → s.heap_end ≡ e.addr
    → found size (pre ++ (e ∷ post)) ≡ 0
    → alloc_page s.pmm ≡ (page, pmm)
    → hi ≤ page
    → page + page_size < 2 ^ 32
    → size ≤ page_size - header_size
    → length (pre ++ (e ∷ post)) + 1 < fuel
    → (t : Heap) × (malloc (suc (suc grows)) fuel size s ≡ some (page + header_size, t))
      × Linked t.block 0 t.heap_start ((pre ++ (e ∷ [])) ++ taken size (page_cell page) [])
      × (t.heap_end ≡ page)
unfolding append_page
malloc_grows grows fuel size page hi pmm s pre e post area last none_fits alloc beyond top fit
      enough =
    let t = append_page page pmm s in
    let positive : 0 < page =
      omega (arith, area.above, Tiles-le s.heap_start hi (pre ++ (e ∷ post)) area.tiles) in
    let ne : page ≢ 0 = omega arith in
    let first : find_block fuel s.heap_start size s.block ≡ some 0 =
      find_block-found fuel s.heap_start size s.block (pre ++ (e ∷ post)) area.linked (omega arith)
      ∙ ap some none_fits in
    let cells = (pre ++ (e ∷ [])) ++ (page_cell page ∷ []) in
    let second : find_block fuel t.heap_start size t.block ≡ some page =
      find_block-found fuel t.heap_start size t.block cells
        (Linked-grown page pmm s pre e post hi area last beyond)
        (omega (
          arith,
          length-append pre (e ∷ post),
          length-append pre (e ∷ []),
          length-append (pre ++ (e ∷ [])) (page_cell page ∷ []),
        ))
      ∙ ap some
          (found_page size 0 s.heap_start s.block pre e post page area.linked none_fits fit) in
    (
      record t { block = take_block page size t.block },
      malloc_appends (suc grows) fuel size page pmm s first alloc ne
          ∙ malloc_takes grows fuel size page t second ne
          ∙ ap (λ (k : ℕ). some (k, record t { block = take_block page size t.block }))
              (omega arith),
      Linked-filled page pmm s pre e post hi area last beyond size fit top,
      refl,
    )
