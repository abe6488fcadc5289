-- ===== src/Heap/Cut.antt =====
-- Lists of blocks of memory/heap.c put together and cut at a block whose link is changed.
use mathlib.Core.Path.{subst}
use nika_kernel.Prelude.{
  ℕ, ◌+◌, ◌≤◌, ◌<◌, ◌≡◌, ◌≢◌, refl, arith, false, [], ◌∷◌, ◌++◌, sym, ap, ◌∙◌,
}
use nika_kernel.Heap.{Block, header_size}
use nika_kernel.Heap.Chain.{Cell, Cells, Linked, Tiles, Tiles-le}
use nika_kernel.Heap.FirstFit.{fits, found}

pub Linked-append :
    (m : ℕ → Block) (p q stop : ℕ) (xs ys : Cells)
    → Linked m q p xs
    → Linked m stop q ys
    → Linked m stop p (xs ++ ys)
Linked-append m p q stop [] ys l k = subst (λ x. Linked m stop x ys) (sym l) k
Linked-append m p q stop (x ∷ xs) ys l k =
    (l.0, l.1, l.2, l.3, Linked-append m (m x.addr).next q stop xs ys l.4 k)

pub Tiles-mem :
    (lo hi : ℕ) (xs : Cells) (e : Cell) (ys : Cells) → Tiles lo hi (xs ++ (e ∷ ys)) → lo ≤ e.addr
Tiles-mem lo hi [] e ys t = omega (arith, t)
Tiles-mem lo hi (x ∷ xs) e ys t =
    omega (arith, Tiles-mem (lo + header_size + x.size) hi xs e ys t.1)

pub Tiles-mem_lt :
    (lo hi : ℕ) (xs : Cells) (e : Cell) (ys : Cells) → Tiles lo hi (xs ++ (e ∷ ys)) → e.addr < hi
Tiles-mem_lt lo hi [] e ys t = omega (arith, t, Tiles-le (lo + header_size + e.size) hi ys t.1)
Tiles-mem_lt lo hi (x ∷ xs) e ys t = Tiles-mem_lt (lo + header_size + x.size) hi xs e ys t.1

pub Tiles-prefix :
    (lo hi : ℕ) (xs : Cells) (e : Cell) (ys : Cells)
    → Tiles lo hi (xs ++ (e ∷ ys))
    → Tiles lo (e.addr + header_size + e.size) (xs ++ (e ∷ []))
      × (e.addr + header_size + e.size ≤ hi)
Tiles-prefix lo hi [] e ys t =
    let le = Tiles-le (lo + header_size + e.size) hi ys t.1 in
    ((t.0, omega (arith, t.0)), omega (arith, t.0))
Tiles-prefix lo hi (x ∷ xs) e ys t =
    let r = Tiles-prefix (lo + header_size + x.size) hi xs e ys t.1 in ((t.0, r.0), r.1)

-- The cells up to one whose link is changed, with the cells behind it cut off.
pub Linked-cut :
    (m m' : ℕ → Block) (p q lo hi : ℕ) (xs : Cells) (e : Cell) (ys : Cells)
    → Linked m 0 p (xs ++ (e ∷ ys))
    → Tiles lo hi (xs ++ (e ∷ ys))
    → ((a : ℕ) → a < hi → a ≢ e.addr → m' a ≡ m a)
    → m' e.addr ≡ record (m e.addr) { next = q }
    → Linked m' q p (xs ++ (e ∷ []))
Linked-cut m m' p q lo hi [] e ys l t same cut = (
  l.0,
  l.1,
  ap (λ (b : Block). b.size) cut ∙ l.2,
  ap (λ (b : Block). b.flags) cut ∙ l.3,
  ap (λ (b : Block). b.next) cut,
)
Linked-cut m m' p q lo hi (x ∷ xs) e ys l t same cut =
    let lo' = lo + header_size + x.size in
    let kept =
      same x.addr (omega (arith, Tiles-le lo' hi (xs ++ (e ∷ ys)) t.1))
        (λ k. absurd (omega (arith, Tiles-mem lo' hi xs e ys t.1, t.0))) in
    rw kept (l.0, l.1, l.2, l.3, Linked-cut m m' (m x.addr).next q lo' hi xs e ys l.4 t.1 same cut)

pub found-append :
    (size stop p : ℕ) (m : ℕ → Block) (xs ys zs : Cells)
    → Linked m stop p (xs ++ ys)
    → found size (xs ++ ys) ≡ 0
    → found size (xs ++ zs) ≡ found size zs
unfolding found
found-append size stop p m [] ys zs l h = refl
found-append size stop p m (x ∷ xs) ys zs l h =
    ground (arith, found-append size stop (m x.addr).next m xs ys zs l.4)

pub found-append_left :
    (size stop p : ℕ) (m : ℕ → Block) (xs : Cells) (e : Cell) (ys : Cells)
    → Linked m stop p (xs ++ (e ∷ ys))
    → found size (xs ++ (e ∷ ys)) ≡ 0
    → fits size e ≡ false
unfolding found
found-append_left size stop p m [] e ys l h = ground arith
found-append_left size stop p m (x ∷ xs) e ys l h =
    ground (arith, found-append_left size stop (m x.addr).next m xs e ys l.4)
