-- ===== src/Heap/Chain.antt =====
-- The list of blocks of memory/heap.c as data, and the area of memory that it covers.
use nika_kernel.Prelude.{ℕ, ◌+◌, ◌^◌, ◌≤◌, ◌<◌, ◌≡◌, arith, List, [], ◌∷◌}
use nika_kernel.Heap.{Block, header_size}

-- A block: where its header stands, its size and its flags.
pub record Cell : Type 0 where
  pub addr : ℕ
  pub size : ℕ
  pub flags : ℕ

abbrev pub Cells : Type 0
Cells = List Cell

-- From `p` on the headers hold the cells, and the last of them leads to `stop`.
abbrev pub Linked : (ℕ → Block) → ℕ → ℕ → Cells → Type 0
Linked m stop p [] = p ≡ stop
Linked m stop p (c ∷ cs) =
    (p ≡ c.addr)
    × (0 < c.addr)
    × ((m c.addr).size ≡ c.size)
    × ((m c.addr).flags ≡ c.flags)
    × Linked m stop (m c.addr).next cs

-- The cells lie next to one another and fill the memory from `lo` up to `hi`.
abbrev pub Tiles : ℕ → ℕ → Cells → Type 0
Tiles lo hi [] = lo ≡ hi
Tiles lo hi (c ∷ cs) = (c.addr ≡ lo) × Tiles (lo + header_size + c.size) hi cs

pub Tiles-le : (lo hi : ℕ) (cs : Cells) → Tiles lo hi cs → lo ≤ hi
Tiles-le lo hi [] h = omega arith
Tiles-le lo hi (c ∷ cs) h = omega (arith, Tiles-le (lo + header_size + c.size) hi cs h.1)

-- The headers of an area depend on no header outside of it.
pub Linked-frame :
    (m m' : ℕ → Block) (stop p lo hi : ℕ) (cs : Cells)
    → Tiles lo hi cs
    → ((a : ℕ) → lo ≤ a → a < hi → m' a ≡ m a)
    → Linked m stop p cs
    → Linked m' stop p cs
Linked-frame m m' stop p lo hi [] t same l = l
Linked-frame m m' stop p lo hi (c ∷ cs) t same l =
    let here =
      same c.addr (omega arith) (omega (arith, Tiles-le (lo + header_size + c.size) hi cs t.1)) in
    let rest =
      Linked-frame m m' stop (m c.addr).next (lo + header_size + c.size) hi cs t.1
        (λ a low high. same a (omega arith) high) l.4 in
    (l.0, l.1, rw here l.2, rw here l.3, rw here rest)

-- A list of blocks as `malloc` and `free` leave it: linked from `heap_start` to NULL, over one area
-- that ends below 2^32.
pub record IsArea (m : ℕ → Block) (start hi : ℕ) (cs : Cells) : Type 0 where
  pub linked : Linked m 0 start cs
  pub tiles : Tiles start hi cs
  pub above : 0 < start
  pub below : hi < 2 ^ 32
