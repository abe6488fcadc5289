-- ===== src/Heap/FirstFit.antt =====
-- First fit over the cells of the heap of memory/heap.c, and the walk of `malloc` that finds it.
use nika_kernel.Prelude.{
  ℕ, zero, suc, ◌+◌, ◌-◌, ◌≤◌, ◌<◌, ◌≡◌, ◌≢◌, inl, inr, refl, arith, Bool, true, ◌&&◌, List, [],
  ◌∷◌, ◌++◌, ◌==◌, leb, ltb, if◌then◌else◌, some, ap, length, Bool-cases,
}
use nika_kernel.Heap.{Block, header_size, find_block}
use nika_kernel.Heap.Chain.{Cell, Cells, Linked}

abbrev pub cell : ℕ → ℕ → ℕ → Cell
cell a size flags = record { addr = a; size = size; flags = flags }

unfoldable pub fits : ℕ → Cell → Bool
fits size c = (c.flags == 0) && leb size c.size

-- The cells that a taken cell leaves in its place.
unfoldable pub taken : ℕ → Cell → Cells → Cells
taken size c cs =
    if ltb (size + header_size) c.size
    then cell c.addr size 1
      ∷ cell (c.addr + header_size + size) (c.size - size - header_size) 0
      ∷ cs
    else cell c.addr c.size 1 ∷ cs

-- The address of the first cell that fits, and 0 if none does.
unfoldable pub found : ℕ → Cells → ℕ
unfolding fits
found size [] = 0
found size (c ∷ cs) = if fits size c then c.addr else found size cs

-- The cells once the first cell that fits is taken.
unfoldable pub place : ℕ → Cells → Cells
unfolding fits taken
place size [] = []
place size (c ∷ cs) = if fits size c then taken size c cs else c ∷ place size cs

pub find_block-found :
    (fuel p size : ℕ) (m : ℕ → Block) (cs : Cells)
    → Linked m 0 p cs
    → length cs < fuel
    → find_block fuel p size m ≡ some (found size cs)
unfolding find_block found
find_block-found zero p size m cs l enough = absurd (omega arith)
find_block-found (suc fuel) p size m [] l enough = ground arith
find_block-found (suc fuel) p size m (c ∷ cs) l enough =
    ground (arith, find_block-found fuel (m c.addr).next size m cs l.4)

-- The blocks in use: where each begins, and its size.
abbrev pub live : Cells → List (ℕ × ℕ)
live [] = []
live (c ∷ cs) = if c.flags == 0 then live cs else (c.addr, c.size) ∷ live cs

-- `ys` is `xs` with `x` put in somewhere.
abbrev pub Inserted : ℕ × ℕ → List (ℕ × ℕ) → List (ℕ × ℕ) → Type 0
Inserted x xs ys =
    (before : List (ℕ × ℕ)) × (after : List (ℕ × ℕ)) × (xs ≡ before ++ after)
    × (ys ≡ before ++ (x ∷ after))

taken-Inserted :
    (size : ℕ) (c : Cell) (cs : Cells)
    → fits size c ≡ true
    → (n : ℕ) × Inserted (c.addr, n) (live (c ∷ cs)) (live (taken size c cs))
      × (size ≤ n)
      × (n ≤ size + header_size)
unfolding fits taken
taken-Inserted size c cs fit = elim (Bool-cases (ltb (size + header_size) c.size)) [
  | inl split ↦ rw split (size, ([], live cs, ground (arith, fit), refl), omega arith, omega arith)
  | inr whole ↦
      rw whole (c.size, ([], live cs, ground (arith, fit), refl), ground (arith, fit), ground arith)
]

Inserted-cons :
    {x : ℕ × ℕ} {xs ys : List (ℕ × ℕ)} (y : ℕ × ℕ) → Inserted x xs ys → Inserted x (y ∷ xs) (y ∷ ys)
Inserted-cons y (before, after, e, f) = (y ∷ before, after, ap (λ l. y ∷ l) e, ap (λ l. y ∷ l) f)

-- Placing a block adds that block to those in use, and no more than a header too large.
pub place-Inserted :
    (size : ℕ) (cs : Cells)
    → found size cs ≢ 0
    → (n : ℕ) × Inserted (found size cs, n) (live cs) (live (place size cs))
      × (size ≤ n)
      × (n ≤ size + header_size)
unfolding found place
place-Inserted size [] h = absurd (h refl)
place-Inserted size (c ∷ cs) h = elim (Bool-cases (fits size c)) [
  | inl fit ↦ rw fit (taken-Inserted size c cs fit)
  | inr miss ↦
      let h' : found size cs ≢ 0 = rw miss at h in
      let (n, ins, low, high) = place-Inserted size cs h' in
      elim (Bool-cases (c.flags == 0)) [
        | inl idle ↦ rw (miss, idle) (n, ins, low, high)
        | inr busy ↦ rw (miss, busy) (n, Inserted-cons (c.addr, c.size) ins, low, high)
      ]
]
