-- ===== src/Heap/Join.antt =====
-- The walk of `free` in memory/heap.c joins free neighbours.
use mathlib.Core.Path.{subst}
use nika_kernel.Prelude.{
  ℕ, zero, suc, ◌+◌, ◌^◌, ◌≤◌, ◌<◌, ◌≡◌, ◌≢◌, inl, inr, refl, arith, true, false, ◌&&◌, [], ◌∷◌,
  ◌==◌, Option, some, sym, ap, ◌∙◌, length, Bool-cases, ==-false_of_ne,
}
use nika_kernel.Heap.{Block, header_size}
use nika_kernel.Heap.Chain.{Cell, Cells, Linked, Tiles, Tiles-le, Linked-frame}
use nika_kernel.Heap.{joins, absorb, join_blocks}
use nika_kernel.Heap.FirstFit.{cell}
use nika_kernel.Heap.Coalesce.{joined}

-- The outcome of the walk from the cell `c` on.
pub record Joined (m : ℕ → Block) (lo : ℕ) (c : Cell) (cs : Cells) (out : Option (ℕ → Block))
    : Type 0 where
  pub mem : ℕ → Block
  pub returns : out ≡ some mem
  pub linked : Linked mem 0 c.addr (joined c cs)
  pub below : (a : ℕ) → a < lo → mem a ≡ m a

join_blocks_again :
    (fuel p : ℕ) (m : ℕ → Block)
    → 0 < p
    → joins p m ≡ true
    → join_blocks (suc fuel) p m ≡ join_blocks fuel p (absorb p m)
unfolding join_blocks
join_blocks_again fuel p m h e = rw (==-false_of_ne p 0 (omega arith), e)

join_blocks_onward :
    (fuel p : ℕ) (m : ℕ → Block)
    → 0 < p
    → joins p m ≡ false
    → join_blocks (suc fuel) p m ≡ join_blocks fuel (m p).next m
unfolding join_blocks
join_blocks_onward fuel p m h e = rw (==-false_of_ne p 0 (omega arith), e)

-- The cell `c` with the cell `d` that follows it taken in.
abbrev both : Cell → Cell → Cell
both c d = cell c.addr (c.size + (header_size + d.size)) c.flags

module _ (lo hi : ℕ) (m : ℕ → Block) (c d : Cell) (ds : Cells) (l : Linked m 0 c.addr (c ∷ d ∷ ds))
    (t : Tiles lo hi (c ∷ d ∷ ds)) (top : hi < 2 ^ 32) where
  joins_cells : joins c.addr m ≡ ((c.flags == 0) && (d.flags == 0))
  unfolding joins
  joins_cells = ground (arith, l)

  bound : lo + header_size + c.size + header_size + d.size ≤ hi
  bound = Tiles-le (lo + header_size + c.size + header_size + d.size) hi ds t.1.1

  absorb_here :
      absorb c.addr m c.addr
      ≡ record { size = c.size + (header_size + d.size); flags = c.flags; next = (m d.addr).next }
  unfolding absorb
  absorb_here = ground (arith, l, t, bound)

  absorb_else : (a : ℕ) → a ≢ c.addr → absorb c.addr m a ≡ m a
  unfolding absorb
  absorb_else a ne = ground (arith, ne)

  Linked-absorb : Linked (absorb c.addr m) 0 c.addr (both c d ∷ ds)
  Linked-absorb =
      let h = absorb_here in
      (
        refl,
        l.1,
        ap (λ (b : Block). b.size) h,
        ap (λ (b : Block). b.flags) h,
        subst (λ k. Linked (absorb c.addr m) 0 k ds) (sym (ap (λ (b : Block). b.next) h))
            (Linked-frame m (absorb c.addr m) 0 (m d.addr).next
              (lo + header_size + c.size + header_size + d.size) hi ds t.1.1
              (λ a low high. absorb_else a (λ e. absurd (omega (arith, t)))) l.4.4),
      )

  Tiles-both : Tiles lo hi (both c d ∷ ds)
  Tiles-both = (t.0, subst (λ k. Tiles k hi ds) (omega (arith, t)) t.1.1)

  Joined-absorb :
      (fuel : ℕ) {out : Option (ℕ → Block)}
      → ((c.flags == 0) && (d.flags == 0)) ≡ true
      → out ≡ join_blocks fuel c.addr (absorb c.addr m)
      → Joined (absorb c.addr m) lo (both c d) ds (join_blocks fuel c.addr (absorb c.addr m))
      → Joined m lo c (d ∷ ds) out
  unfolding joined
  Joined-absorb fuel yes_both e j = record {
    mem = j.mem;
    returns = e ∙ j.returns;
    linked = rw yes_both (j.linked);
    below = λ a h. j.below a h ∙ absorb_else a (λ k. absurd (omega (arith, t)));
  }

  Joined-onward :
      (fuel : ℕ) {out : Option (ℕ → Block)}
      → ((c.flags == 0) && (d.flags == 0)) ≡ false
      → out ≡ join_blocks fuel (m c.addr).next m
      → Joined m (lo + header_size + c.size) d ds (join_blocks fuel d.addr m)
      → Joined m lo c (d ∷ ds) out
  unfolding joined
  Joined-onward fuel not_both e j =
      let kept = j.below c.addr (omega (arith, t)) in
      let next = ap (λ (b : Block). b.next) kept ∙ l.4.0 in
      record {
        mem = j.mem;
        returns = e ∙ ap (λ k. join_blocks fuel k m) l.4.0 ∙ j.returns;
        linked = rw not_both (
          refl,
          l.1,
          ap (λ (b : Block). b.size) kept ∙ l.2,
          ap (λ (b : Block). b.flags) kept ∙ l.3,
          subst (λ k. Linked j.mem 0 k (joined d ds)) (sym next) j.linked,
        );
        below = λ a h. j.below a (omega arith);
      }

pub join_blocks-Joined :
    (fuel lo hi : ℕ) (m : ℕ → Block) (c : Cell) (cs : Cells)
    → Linked m 0 c.addr (c ∷ cs)
    → Tiles lo hi (c ∷ cs)
    → hi < 2 ^ 32
    → length (c ∷ cs) < fuel
    → Joined m lo c cs (join_blocks fuel c.addr m)
unfolding join_blocks joined
join_blocks-Joined zero lo hi m c cs l t top enough = absurd (omega arith)
join_blocks-Joined (suc zero) lo hi m c cs l t top enough = absurd (omega arith)
join_blocks-Joined (suc (suc fuel)) lo hi m c [] l t top enough = record {
  mem = m;
  returns = ground (arith, l);
  linked = l;
  below = λ a h. refl;
}
join_blocks-Joined (suc (suc fuel)) lo hi m c (d ∷ ds) l t top enough =
    elim (Bool-cases ((c.flags == 0) && (d.flags == 0))) [
      | inl yes_both ↦
          Joined-absorb lo hi m c d ds l t top (suc fuel) yes_both
            (join_blocks_again (suc fuel) c.addr m l.1
              (joins_cells lo hi m c d ds l t top ∙ yes_both))
            (join_blocks-Joined (suc fuel) lo hi (absorb c.addr m) (both c d) ds
              (Linked-absorb lo hi m c d ds l t top) (Tiles-both lo hi m c d ds l t top) top
              (omega arith))
      | inr not_both ↦
          let l' : Linked m 0 d.addr (d ∷ ds) = (refl, l.4.1, l.4.2, l.4.3, l.4.4) in
          Joined-onward lo hi m c d ds l t top (suc fuel) not_both
            (join_blocks_onward (suc fuel) c.addr m l.1
              (joins_cells lo hi m c d ds l t top ∙ not_both))
            (join_blocks-Joined (suc fuel) (lo + header_size + c.size) hi m d ds l' t.1 top
              (omega arith))
    ]
