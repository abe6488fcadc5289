-- ===== src/Heap/Free.antt =====
-- `free` of memory/heap.c gives one block back and leaves no two free neighbours.
use mathlib.Core.Path.{subst}
use nika_kernel.Prelude.{
  ℕ, ◌+◌, ◌^◌, ◌≤◌, ◌<◌, ◌≡◌, ◌≢◌, refl, arith, [], ◌∷◌, ◌++◌, some, sym, ap, ◌∙◌, length,
  length-append, sub32, ==-false_of_ne,
}
use nika_kernel.Heap.{Block, Heap, header_size, write}
use nika_kernel.Heap.Chain.{Cell, Cells, Linked, Tiles, Tiles-le, Linked-frame, IsArea}
use nika_kernel.Heap.{join_blocks, free}
use nika_kernel.Heap.FirstFit.{cell, live}
use nika_kernel.Heap.Coalesce.{joined, coalesce, Tiles-joined, live-joined, Apart, Apart-joined}
use nika_kernel.Heap.Join.{join_blocks-Joined}

-- The cell that `free` marks.
abbrev pub idle : Cell → Cell
idle e = cell e.addr e.size 0

Tiles-idle :
    (lo hi : ℕ) (pre : Cells) (e : Cell) (post : Cells)
    → Tiles lo hi (pre ++ (e ∷ post))
    → Tiles lo hi (pre ++ (idle e ∷ post))
Tiles-idle lo hi [] e post t = t
Tiles-idle lo hi (x ∷ pre) e post t =
    (t.0, Tiles-idle (lo + header_size + x.size) hi pre e post t.1)

Tiles-addr :
    (lo hi : ℕ) (pre : Cells) (e : Cell) (post : Cells)
    → Tiles lo hi (pre ++ (e ∷ post))
    → (lo ≤ e.addr) × (e.addr + header_size + e.size ≤ hi)
Tiles-addr lo hi [] e post t = omega (arith, t, Tiles-le (lo + header_size + e.size) hi post t.1)
Tiles-addr lo hi (x ∷ pre) e post t =
    omega (arith, t, Tiles-addr (lo + header_size + x.size) hi pre e post t.1)

Linked-idle :
    (m : ℕ → Block) (p lo hi : ℕ) (pre : Cells) (e : Cell) (post : Cells)
    → Tiles lo hi (pre ++ (e ∷ post))
    → Linked m 0 p (pre ++ (e ∷ post))
    → Linked (write m e.addr (record (m e.addr) { flags = 0 })) 0 p (pre ++ (idle e ∷ post))
Linked-idle m p lo hi [] e post t l =
    let m' = write m e.addr (record (m e.addr) { flags = 0 }) in
    let here : m' e.addr ≡ record (m e.addr) { flags = 0 } = ground arith in
    let rest =
      Linked-frame m m' 0 (m e.addr).next (lo + header_size + e.size) hi post t.1
        (λ a low high. ground (arith, t)) l.4 in
    (
      l.0,
      l.1,
      ap (λ (b : Block). b.size) here ∙ l.2,
      ap (λ (b : Block). b.flags) here,
      subst (λ k. Linked m' 0 k post) (sym (ap (λ (b : Block). b.next) here)) rest,
    )
Linked-idle m p lo hi (x ∷ pre) e post t l =
    let m' = write m e.addr (record (m e.addr) { flags = 0 }) in
    let apart = Tiles-addr (lo + header_size + x.size) hi pre e post t.1 in
    let here : m' x.addr ≡ m x.addr = ground (arith, t, apart) in
    let rest = Linked-idle m (m x.addr).next (lo + header_size + x.size) hi pre e post t.1 l.4 in
    (
      l.0,
      l.1,
      ap (λ (b : Block). b.size) here ∙ l.2,
      ap (λ (b : Block). b.flags) here ∙ l.3,
      subst (λ k. Linked m' 0 k (pre ++ (idle e ∷ post))) (sym (ap (λ (b : Block). b.next) here))
          rest,
    )

live-idle :
    (pre : Cells) (e : Cell) (post : Cells) → live (pre ++ (idle e ∷ post)) ≡ live pre ++ live post
live-idle [] e post = refl
live-idle (x ∷ pre) e post = ground (arith, live-idle pre e post)

live-coalesce : (cs : Cells) → live (coalesce cs) ≡ live cs
live-coalesce [] = refl
live-coalesce (c ∷ cs) = live-joined c cs

Tiles-coalesce : (lo hi : ℕ) (cs : Cells) → Tiles lo hi cs → Tiles lo hi (coalesce cs)
Tiles-coalesce lo hi [] t = t
Tiles-coalesce lo hi (c ∷ cs) t = Tiles-joined lo hi c cs t

Apart-coalesce : (cs : Cells) → Apart 1 (coalesce cs)
Apart-coalesce [] = tt
Apart-coalesce (c ∷ cs) = Apart-joined 1 c cs refl

join_blocks-coalesce :
    (fuel lo hi : ℕ) (m : ℕ → Block) (cs : Cells)
    → Linked m 0 lo cs
    → Tiles lo hi cs
    → 0 < lo
    → hi < 2 ^ 32
    → length cs < fuel
    → (m' : ℕ → Block) × (join_blocks fuel lo m ≡ some m') × Linked m' 0 lo (coalesce cs)
join_blocks-coalesce fuel lo hi m [] l t above top enough = absurd (omega arith)
join_blocks-coalesce fuel lo hi m (c ∷ cs) l t above top enough =
    let l' : Linked m 0 c.addr (c ∷ cs) = (refl, l.1, l.2, l.3, l.4) in
    let j = join_blocks-Joined fuel lo hi m c cs l' t top enough in
    (
      j.mem,
      ap (λ k. join_blocks fuel k m) l.0 ∙ j.returns,
      subst (λ k. Linked j.mem 0 k (joined c cs)) (sym l.0) j.linked,
    )

free_walks :
    (fuel a : ℕ) (s : Heap) {m : ℕ → Block}
    → a + header_size < 2 ^ 32
    → join_blocks fuel s.heap_start (write s.block a (record (s.block a) { flags = 0 })) ≡ some m
    → free fuel (a + header_size) s ≡ some (record s { block = m })
unfolding free
free_walks fuel a s word e =
    let back : sub32 (a + header_size) header_size ≡ a = omega arith in
    let ne : a + header_size ≢ 0 = omega arith in
    rw (==-false_of_ne (a + header_size) 0 ne, back, e)

-- The outcome of `free`: the same area in blocks of which no two neighbours are free, with the
-- blocks in use but the one that was given back.
pub record Freed (hi : ℕ) (s : Heap) (pre post : Cells) (t : Heap) : Type 0 where
  pub cells : Cells
  pub area : IsArea t.block t.heap_start hi cells
  pub in_use : live cells ≡ live pre ++ live post
  pub apart : Apart 1 cells
  pub same_pmm : t.pmm ≡ s.pmm
  pub same_start : t.heap_start ≡ s.heap_start
  pub same_end : t.heap_end ≡ s.heap_end

-- Over a list of blocks that fills one area, with more fuel than blocks, `free` of the memory of
-- one of them returns. The blocks fill the same area, from the same start, no free block is followed by a free block,
-- and the blocks in use are those from before without the one that was freed.
pub free-Freed :
    (fuel hi : ℕ) (s : Heap) (pre : Cells) (e : Cell) (post : Cells)
    → IsArea s.block s.heap_start hi (pre ++ (e ∷ post))
    → length (pre ++ (e ∷ post)) < fuel
    → (t : Heap) × (free fuel (e.addr + header_size) s ≡ some t) × Freed hi s pre post t
free-Freed fuel hi s pre e post area enough =
    let cs = pre ++ (idle e ∷ post) in
    let m = write s.block e.addr (record (s.block e.addr) { flags = 0 }) in
    let tiles = Tiles-idle s.heap_start hi pre e post area.tiles in
    let inside = Tiles-addr s.heap_start hi pre e post area.tiles in
    let j =
      join_blocks-coalesce fuel s.heap_start hi m cs
        (Linked-idle s.block s.heap_start s.heap_start hi pre e post area.tiles area.linked) tiles
        area.above area.below
        (omega (arith, length-append pre (idle e ∷ post), length-append pre (e ∷ post))) in
    (
      record s { block = j.0 },
      free_walks fuel e.addr s (omega (arith, area.below)) j.1,
      record {
        cells = coalesce cs;
        area = record {
          linked = j.2;
          tiles = Tiles-coalesce s.heap_start hi cs tiles;
          above = area.above;
          below = area.below;
        };
        in_use = live-coalesce cs ∙ live-idle pre e post;
        apart = Apart-coalesce cs;
        same_pmm = refl;
        same_start = refl;
        same_end = refl;
      },
    )
