-- ===== src/Heap/Coalesce.antt =====
-- What the walk of `free` in memory/heap.c makes of the cells: runs of free cells become one.
use mathlib.Core.Path.{subst}
use nika_kernel.Prelude.{
  ℕ, ◌+◌, ◌≡◌, inl, inr, refl, arith, false, ◌&&◌, [], ◌∷◌, ◌==◌, if◌then◌else◌, Bool-cases,
}
use nika_kernel.Heap.{header_size}
use nika_kernel.Heap.Chain.{Cell, Cells, Tiles}
use nika_kernel.Heap.FirstFit.{cell, live}

-- The cell `c` and those behind it, with each run of free cells joined into one.
unfoldable pub joined : Cell → Cells → Cells
joined c [] = c ∷ []
joined c (d ∷ ds) =
    if (c.flags == 0) && (d.flags == 0)
    then joined (cell c.addr (c.size + (header_size + d.size)) c.flags) ds
    else c ∷ joined d ds

abbrev pub coalesce : Cells → Cells
coalesce [] = []
coalesce (c ∷ cs) = joined c cs

pub Tiles-joined :
    (lo hi : ℕ) (c : Cell) (cs : Cells) → Tiles lo hi (c ∷ cs) → Tiles lo hi (joined c cs)
unfolding joined
Tiles-joined lo hi c [] t = t
Tiles-joined lo hi c (d ∷ ds) t = elim (Bool-cases ((c.flags == 0) && (d.flags == 0))) [
  | inl both ↦ rw both (
      Tiles-joined lo hi (cell c.addr (c.size + (header_size + d.size)) c.flags) ds
        (t.0, subst (λ k. Tiles k hi ds) (omega (arith, t)) t.1.1))
  | inr not_both ↦ rw not_both (t.0, Tiles-joined (lo + header_size + c.size) hi d ds t.1)
]

pub live-joined : (c : Cell) (cs : Cells) → live (joined c cs) ≡ live (c ∷ cs)
unfolding joined
live-joined c [] = refl
live-joined c (d ∷ ds) = ground (
  arith,
  live-joined (cell c.addr (c.size + (header_size + d.size)) c.flags) ds,
  live-joined d ds,
)

-- No free cell follows a free cell, behind a cell with the flags `f`.
abbrev pub Apart : ℕ → Cells → Type 0
Apart f [] = Unit
Apart f (c ∷ cs) = (((f == 0) && (c.flags == 0)) ≡ false) × Apart c.flags cs

pub Apart-joined :
    (f : ℕ) (c : Cell) (cs : Cells) → ((f == 0) && (c.flags == 0)) ≡ false → Apart f (joined c cs)
unfolding joined
Apart-joined f c [] h = (h, tt)
Apart-joined f c (d ∷ ds) h = elim (Bool-cases ((c.flags == 0) && (d.flags == 0))) [
  | inl both ↦ rw both (Apart-joined f (cell c.addr (c.size + (header_size + d.size)) c.flags) ds h)
  | inr not_both ↦ rw not_both (h, Apart-joined c.flags d ds not_both)
]
