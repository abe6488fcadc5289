-- ===== src/Pmm/Alloc.antt =====
-- `pmm_alloc_page` of memory/pmm.c gives out the first free page and marks that page alone.
use nika_kernel.Prelude.{
  ℕ, zero, suc, ◌+◌, ◌*◌, ◌/◌, ◌^◌, ◌≤◌, ◌<◌, ◌≡◌, ◌≢◌, ◌⊎◌, inl, inr, refl, arith, true, false,
  ◌∙◌, not, ◌&&◌, ◌||◌, ◌==◌, Bool-cases, u32, ap, sym,
}
use mathlib.Core.Path.{subst}
use nika_kernel.Pmm.{
  Pmm, page_size, page_free, set_bit, mark_free, mark_used, alloc_from, alloc_page,
}
use nika_kernel.Pmm.Bitmap.{IsBytes, set_bit-IsBytes, page_free-set_bit, page_free-clear_bit}

-- Page `q` of `t` is what it is in `s`, but that page `p` is in use.
abbrev pub Takes : Pmm → ℕ → Pmm → Type 0
Takes s p t = (q : ℕ) → page_free t q ≡ (not (p == q) && page_free s q)

-- The outcome of a search of the pages from `lo` up to `hi`.
pub record Found (s : Pmm) (lo hi p : ℕ) (out : ℕ × Pmm) : Type 0 where
  pub from : lo ≤ p
  pub below : p < hi
  pub was_free : page_free s p ≡ true
  pub least : (q : ℕ) → lo ≤ q → q < p → page_free s q ≡ false
  pub address : out.0 ≡ u32 (p * page_size)
  pub takes : Takes s p out.1
  pub same_total : out.1.total_pages ≡ s.total_pages
  pub bytes : IsBytes out.1

pub record Full (s : Pmm) (lo hi : ℕ) (out : ℕ × Pmm) : Type 0 where
  pub none_free : (q : ℕ) → lo ≤ q → q < hi → page_free s q ≡ false
  pub unchanged : out ≡ (0, s)

abbrev pub Outcome : Pmm → ℕ → ℕ → ℕ × Pmm → Type 0
Outcome s lo hi out = ((p : ℕ) × Found s lo hi p out) ⊎ Full s lo hi out

total_pages-set_bit : (s : Pmm) (p : ℕ) → (set_bit s p).total_pages ≡ s.total_pages
unfolding set_bit
total_pages-set_bit s p = refl

-- One more page that is in use, in front of the pages that were searched.
Outcome-used :
    {s : Pmm} {lo hi : ℕ} {out : ℕ × Pmm}
    → page_free s lo ≡ false
    → Outcome s (lo + 1) hi out
    → Outcome s lo hi out
Outcome-used {s} {lo} used (inl (p, f)) = inl (
  p,
  record {
    from = omega (arith, f.from);
    below = f.below;
    was_free = f.was_free;
    least = λ q a b. ground (arith, f.least q);
    address = f.address;
    takes = f.takes;
    same_total = f.same_total;
    bytes = f.bytes;
  },
)
Outcome-used {s} {lo} used (inr f) =
    inr (record { none_free = λ q a b. ground (arith, f.none_free q); unchanged = f.unchanged })

alloc_at :
    (s : Pmm) (i hi : ℕ)
    → IsBytes s
    → i < hi
    → page_free s i ≡ true
    → Outcome s i hi (u32 (i * page_size), set_bit s i)
alloc_at s i hi h lt free = inl (
  i,
  record {
    from = omega arith;
    below = lt;
    was_free = free;
    least = λ q a b. absurd (omega arith);
    address = refl;
    takes = λ q. page_free-set_bit s i q h;
    same_total = total_pages-set_bit s i;
    bytes = set_bit-IsBytes s i h;
  },
)

alloc_from-Outcome :
    (n i hi : ℕ) (s : Pmm) → IsBytes s → i + n ≡ hi → Outcome s i hi (alloc_from n i s)
unfolding alloc_from
alloc_from-Outcome zero i hi s h e =
    inr (record { none_free = λ q a b. absurd (omega arith); unchanged = refl })
alloc_from-Outcome (suc n) i hi s h e = elim (Bool-cases (page_free s i)) [
  | inl free ↦ rw free (alloc_at s i hi h (omega arith) free)
  | inr used ↦ rw used (Outcome-used used (alloc_from-Outcome n (i + 1) hi s h (omega arith)))
]

-- Over a bitmap of bytes, `pmm_alloc_page` either finds the least free page below `total_pages`,
-- returns its address modulo 2^32, marks that page and no other, and leaves the total as it was;
-- or no page below `total_pages` is free, and it returns NULL and changes nothing.
pub alloc_page-Outcome : (s : Pmm) → IsBytes s → Outcome s 0 s.total_pages (alloc_page s)
unfolding alloc_page
alloc_page-Outcome s h = alloc_from-Outcome s.total_pages 0 s.total_pages s h (omega arith)

different_pages :
    (s : Pmm) (a b : ℕ × Pmm)
    → s.total_pages ≤ 2 ^ 20
    → Outcome s 0 s.total_pages a
    → Outcome a.1 0 a.1.total_pages b
    → (b.0 ≡ 0) ⊎ (b.0 ≢ a.0)
different_pages s a b bound o (inr f) = inl (ap (λ (x : ℕ × Pmm). x.0) f.unchanged)
different_pages s a b bound (inl (p, f)) (inl (q, g)) =
    inr λ e.
      ground (arith, f.takes q, f.below, f.same_total, f.address, g.was_free, g.below, g.address)
different_pages s a b bound (inr f) (inl (q, g)) = ground (
  arith,
  f.none_free q,
  g.was_free,
  g.below,
  ap (λ (x : ℕ × Pmm). page_free x.1 q) f.unchanged,
  ap (λ (x : ℕ × Pmm). x.1.total_pages) f.unchanged,
)

pub Outcome-IsBytes :
    {s : Pmm} {lo hi : ℕ} {out : ℕ × Pmm} → IsBytes s → Outcome s lo hi out → IsBytes out.1
Outcome-IsBytes h (inl (p, f)) = f.bytes
Outcome-IsBytes {s} h (inr f) = subst (λ x. IsBytes x.1) (sym f.unchanged) h

-- Two calls in a row over a bitmap of bytes, for at most 2^20 pages, never return the same
-- address, unless the second returns NULL.
pub alloc_page_fresh :
    (s : Pmm)
    → IsBytes s
    → s.total_pages ≤ 2 ^ 20
    → ((alloc_page (alloc_page s).1).0 ≡ 0) ⊎ ((alloc_page (alloc_page s).1).0 ≢ (alloc_page s).0)
alloc_page_fresh s h bound =
    different_pages s (alloc_page s) (alloc_page (alloc_page s).1) bound (alloc_page-Outcome s h)
      (alloc_page-Outcome (alloc_page s).1 (Outcome-IsBytes h (alloc_page-Outcome s h)))

-- A page in use stays in use.
pub alloc_page-used :
    (s : Pmm) (q : ℕ) → IsBytes s → page_free s q ≡ false → page_free (alloc_page s).1 q ≡ false
alloc_page-used s q h used = elim (alloc_page-Outcome s h) [
  | inl (p, f) ↦ f.takes q ∙ ground (arith, used)
  | inr f ↦ ap (λ (x : ℕ × Pmm). page_free x.1 q) f.unchanged ∙ used
]

pub alloc_page-total_pages : (s : Pmm) → IsBytes s → (alloc_page s).1.total_pages ≡ s.total_pages
alloc_page-total_pages s h = elim (alloc_page-Outcome s h) [
  | inl (p, f) ↦ f.same_total
  | inr f ↦ ap (λ (x : ℕ × Pmm). x.1.total_pages) f.unchanged
]

-- The allocator after that many calls.
abbrev pub allocs : ℕ → Pmm → Pmm
allocs zero s = s
allocs (suc n) s = allocs n (alloc_page s).1

-- Freeing the page of an address that `pmm_mark_used` took, and only that page, is undone by
-- `pmm_mark_used`, whatever the bitmap of bytes: the test of each page is known after each call.
pub mark_free-mark_used :
    (s : Pmm) (addr q : ℕ)
    → IsBytes s
    → (page_free (mark_used s addr) q ≡ (not (addr / page_size == q) && page_free s q))
      × (page_free (mark_free s addr) q ≡ ((addr / page_size == q) || page_free s q))
unfolding mark_free mark_used
mark_free-mark_used s addr q h =
    (page_free-set_bit s (addr / page_size) q h, page_free-clear_bit s (addr / page_size) q h)
