-- ===== src/Paging/Walk.antt =====
-- What the processor does with the tables of memory/paging.c: the walk from an address to its page,
-- and the invariant of a directory whose tables the page allocator knows to be in use.
use nika_kernel.Prelude.{
  ℕ, zero, suc, ◌*◌, ◌/◌, ◌%◌, ◌^◌, ◌≤◌, ◌<◌, ◌≡◌, ◌≢◌, refl, arith, false, Option, none, some,
  ◌==◌, if◌then◌else◌, ==_iff, Bool-cases, inl, inr, ap, sym, ◌∙◌,
}
use nika_kernel.Pmm.{page_free}
use nika_kernel.Pmm.Bitmap.{IsBytes}
use nika_kernel.Paging.{Machine, slot, zero_words}

-- The frame and the low bits of an entry that is present.
abbrev pub decode : ℕ → Option (ℕ × ℕ)
decode e = if e % 2 == 1 then some (e / 4096 * 4096, e % 4096) else none

-- The walk of the processor: directory entry, table entry, frame. `none` is a page fault.
unfoldable pub walk : (ℕ → ℕ) → ℕ → ℕ → Option (ℕ × ℕ)
walk m pd v =
    let pde = m (slot pd (v / 2 ^ 22)) in
    if pde % 2 == 1 then decode (m (slot (pde / 4096 * 4096) (v / 4096 % 1024))) else none

-- The directory and its tables are distinct pages that are in use.
pub record HasTables (s : Machine) (pd : ℕ) : Type 0 where
  pub bytes : IsBytes s.pmm
  pub bound : s.pmm.total_pages ≤ 2 ^ 20
  pub words : (a : ℕ) → s.word a < 2 ^ 32
  pub aligned : pd % 4096 ≡ 0
  pub dir_used : page_free s.pmm (pd / 4096) ≡ false
  pub table_used :
      (i : ℕ)
      → i < 1024
      → s.word (slot pd i) % 2 ≡ 1
      → (page_free s.pmm (s.word (slot pd i) / 4096) ≡ false)
        × (s.word (slot pd i) / 4096 ≢ pd / 4096)
  pub apart :
      (i j : ℕ)
      → i < 1024
      → j < 1024
      → i ≢ j
      → s.word (slot pd i) % 2 ≡ 1
      → s.word (slot pd j) % 2 ≡ 1
      → s.word (slot pd i) / 4096 ≢ s.word (slot pd j) / 4096

pub zero_words_inside :
    (n table : ℕ) (m : ℕ → ℕ) (j : ℕ) → j < n → zero_words n table m (slot table j) ≡ 0
unfolding zero_words
zero_words_inside zero table m j h = absurd (omega arith)
zero_words_inside (suc n) table m j h = ground (arith, zero_words_inside n table m j)

pub zero_words_outside :
    (n table : ℕ) (m : ℕ → ℕ) (a : ℕ)
    → n ≤ 1024
    → table % 4096 ≡ 0
    → a / 4096 ≢ table / 4096
    → zero_words n table m a ≡ m a
unfolding zero_words
zero_words_outside zero table m a few al ne = refl
zero_words_outside (suc n) table m a few al ne = ground (arith, zero_words_outside n table m a)

pub zero_words_lt :
    (n table : ℕ) (m : ℕ → ℕ) (a : ℕ) → ((b : ℕ) → m b < 2 ^ 32) → zero_words n table m a < 2 ^ 32
unfolding zero_words
zero_words_lt zero table m a h = h a
zero_words_lt (suc n) table m a h = ground (arith, zero_words_lt n table m a h)

pub walk_absent : (m : ℕ → ℕ) (pd v : ℕ) → m (slot pd (v / 2 ^ 22)) % 2 ≡ 0 → walk m pd v ≡ none
unfolding walk
walk_absent m pd v e = ground arith

-- The walk through a directory entry `e` that is present.
pub walk_through :
    (m : ℕ → ℕ) (pd v e : ℕ)
    → m (slot pd (v / 2 ^ 22)) ≡ e
    → e % 2 ≡ 1
    → walk m pd v ≡ decode (m (slot (e / 4096 * 4096) (v / 4096 % 1024)))
unfolding walk
walk_through m pd v e here on = rw (here, (==_iff (e % 2) 1).1 on)

-- Two memories with the same directory entry for `v`, and the same entry in its table.
pub walk_same :
    (m m' : ℕ → ℕ) (pd v : ℕ)
    → m' (slot pd (v / 2 ^ 22)) ≡ m (slot pd (v / 2 ^ 22))
    → (m (slot pd (v / 2 ^ 22)) % 2 ≡ 1
        → let e = m (slot pd (v / 2 ^ 22)) in
          m' (slot (e / 4096 * 4096) (v / 4096 % 1024))
          ≡ m (slot (e / 4096 * 4096) (v / 4096 % 1024)))
    → walk m' pd v ≡ walk m pd v
walk_same m m' pd v dir table = elim (Bool-cases (m (slot pd (v / 2 ^ 22)) % 2 == 1)) [
  | inl on ↦
      let on' = (==_iff _ 1).0 on in
      walk_through m' pd v (m (slot pd (v / 2 ^ 22))) dir on'
      ∙ ap decode (table on')
      ∙ sym (walk_through m pd v (m (slot pd (v / 2 ^ 22))) refl on')
  | inr off ↦
      let off' : m (slot pd (v / 2 ^ 22)) % 2 ≡ 0 = ground arith in
      walk_absent m' pd v (omega arith) ∙ sym (walk_absent m pd v off')
]
