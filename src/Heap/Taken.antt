-- ===== src/Heap/Taken.antt =====
-- The headers that `malloc` of memory/heap.c writes when it takes a block.
use mathlib.Core.Path.{subst}
use nika_kernel.Prelude.{
  ℕ, ◌+◌, ◌-◌, ◌^◌, ◌≤◌, ◌<◌, ◌≡◌, ◌≢◌, inl, inr, refl, arith, true, [], ◌∷◌, ltb, sym, ap, ◌∙◌,
  Bool-cases,
}
use nika_kernel.Heap.{Block, header_size, take_block}
use nika_kernel.Heap.Chain.{Cell, Cells, Linked, Tiles, Tiles-le, Linked-frame}
use nika_kernel.Heap.FirstFit.{fits, taken, found, place}

-- Taking the block at `a` writes no header below `a`.
pub take_block_above :
    (a size : ℕ) (m : ℕ → Block) (b : ℕ)
    → b < a
    → size ≤ (m a).size
    → a + header_size + (m a).size < 2 ^ 32
    → take_block a size m b ≡ m b
unfolding take_block
take_block_above a size m b below room word = ground arith

-- The cell that was found is large enough, and lies in the area.
pub found_room :
    (size lo hi p : ℕ) (m : ℕ → Block) (cs : Cells)
    → Linked m 0 p cs
    → Tiles lo hi cs
    → found size cs ≢ 0
    → (lo ≤ found size cs)
      × (size ≤ (m (found size cs)).size)
      × (found size cs + header_size + (m (found size cs)).size ≤ hi)
unfolding found fits
found_room size lo hi p m [] l t h = absurd (h refl)
found_room size lo hi p m (c ∷ cs) l t h = ground (
  arith,
  Tiles-le (lo + header_size + c.size) hi cs t.1,
  found_room size (lo + header_size + c.size) hi (m c.addr).next m cs l.4 t.1,
)

-- The headers after a block is taken: with a rest behind it, and whole.
take_block_split :
    (a size : ℕ) (m : ℕ → Block)
    → size + header_size < (m a).size
    → a + header_size + (m a).size < 2 ^ 32
    → let t = take_block a size m in
      let q = a + header_size + size in
      (t a ≡ record { size = size; flags = 1; next = q })
      × (t q ≡ record { size = (m a).size - size - header_size; flags = 0; next = (m a).next })
unfolding take_block
take_block_split a size m room word = (ground arith, ground arith)

take_block_whole :
    (a size : ℕ) (m : ℕ → Block)
    → size ≤ (m a).size
    → (m a).size ≤ size + header_size
    → a + header_size + (m a).size < 2 ^ 32
    → take_block a size m a ≡ record (m a) { flags = 1 }
unfolding take_block
take_block_whole a size m fit room word = ground arith

-- The rest of the list does not see that the cell at its head is taken.
take_block_beyond :
    (a size : ℕ) (m : ℕ → Block) (b : ℕ)
    → size ≤ (m a).size
    → a + header_size + (m a).size < 2 ^ 32
    → a + header_size + (m a).size ≤ b
    → take_block a size m b ≡ m b
unfolding take_block
take_block_beyond a size m b fit word beyond = ground arith

module _ (size lo hi : ℕ) (m : ℕ → Block) (c : Cell) (cs : Cells) (l : Linked m 0 c.addr (c ∷ cs))
    (t : Tiles lo hi (c ∷ cs)) (top : hi < 2 ^ 32) (fit : fits size c ≡ true) where
  bound : lo + header_size + c.size ≤ hi
  bound = Tiles-le (lo + header_size + c.size) hi cs t.1

  enough : size ≤ c.size
  unfolding fits
  enough = ground (arith, fit)

  rest : Linked (take_block c.addr size m) 0 (m c.addr).next cs
  rest =
      let b = bound in
      let e = enough in
      Linked-frame m (take_block c.addr size m) 0 (m c.addr).next (lo + header_size + c.size) hi cs
        t.1
        (λ b low high.
          take_block_beyond c.addr size m b (omega (arith, l, t)) (omega (arith, l, t))
            (omega (arith, l, t)))
        l.4

  pub Linked-taken : Linked (take_block c.addr size m) 0 c.addr (taken size c cs)
  unfolding taken
  Linked-taken = elim (Bool-cases (ltb (size + header_size) c.size)) [
    | inl split ↦
        let v = take_block_split c.addr size m (ground (arith, l)) (omega (arith, bound, l, t)) in
        rw split (
          refl,
          l.1,
          ap (λ (x : Block). x.size) v.0,
          ap (λ (x : Block). x.flags) v.0,
          (
            ap (λ (x : Block). x.next) v.0,
            omega (arith, l),
            ap (λ (x : Block). x.size) v.1 ∙ ap (λ (k : ℕ). k - size - header_size) l.2,
            ap (λ (x : Block). x.flags) v.1,
            subst (λ k. Linked t' 0 k cs) (sym (ap (λ (x : Block). x.next) v.1)) rest,
          ),
        )
    | inr whole ↦
        let v =
          take_block_whole c.addr size m (omega (arith, l, enough)) (ground (arith, l))
            (omega (arith, bound, l, t)) in
        rw whole (
          refl,
          l.1,
          ap (λ (x : Block). x.size) v ∙ l.2,
          ap (λ (x : Block). x.flags) v,
          subst (λ k. Linked t' 0 k cs) (sym (ap (λ (x : Block). x.next) v)) rest,
        )
  ]
    where
      t' : ℕ → Block
      t' = take_block c.addr size m

  Tiles-taken : Tiles lo hi (taken size c cs)
  unfolding taken
  Tiles-taken = elim (Bool-cases (ltb (size + header_size) c.size)) [
    | inl split ↦
        rw split (t.0, (omega (arith, t), subst (λ k. Tiles k hi cs) (ground (arith, t)) t.1))
    | inr whole ↦ rw whole t
  ]

pub take_block-place :
    (size lo hi p : ℕ) (m : ℕ → Block) (cs : Cells)
    → Linked m 0 p cs
    → Tiles lo hi cs
    → hi < 2 ^ 32
    → found size cs ≢ 0
    → Linked (take_block (found size cs) size m) 0 p (place size cs) × Tiles lo hi (place size cs)
unfolding found place
take_block-place size lo hi p m [] l t top h = absurd (h refl)
take_block-place size lo hi p m (c ∷ cs) l t top h = elim (Bool-cases (fits size c)) [
  | inl fit ↦
      let l' : Linked m 0 c.addr (c ∷ cs) = (refl, l.1, l.2, l.3, l.4) in
      rw fit (
        subst (λ k. Linked (take_block c.addr size m) 0 k (taken size c cs)) (sym l.0)
            (Linked-taken size lo hi m c cs l' t top fit),
        Tiles-taken size lo hi m c cs l' t top fit,
      )
  | inr miss ↦
      let h' : found size cs ≢ 0 = rw miss at h in
      let lo' = lo + header_size + c.size in
      let r = found_room size lo' hi (m c.addr).next m cs l.4 t.1 h' in
      let ih = take_block-place size lo' hi (m c.addr).next m cs l.4 t.1 top h' in
      let same = take_block_above (found size cs) size m c.addr (omega arith) r.1 (omega arith) in
      rw (miss, same) ((l.0, l.1, l.2, l.3, ih.0), (t.0, ih.1))
]
