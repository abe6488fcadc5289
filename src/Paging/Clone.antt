-- ===== src/Paging/Clone.antt =====
-- The copies of memory/paging.c: `clone_kernel_space` and `copy_page`.
use mathlib.Core.Path.{subst}
use native.Mathlib.Decide.{ℕ_discrete}
use nika_kernel.Prelude.{◌∙◌, ℕ, zero, suc, ◌+◌, ◌≤◌, ◌<◌, ◌≡◌, ◌≢◌, ◌⊎◌, refl, arith}
use nika_kernel.Paging.{
  Machine, slot, put, copy_entries, clone_kernel_space, copy_page, kernel_pd_index,
}

-- The two tables do not overlap.
copy_entries-else :
    (n i from to : ℕ) (m : ℕ → ℕ) (a : ℕ)
    → ((j : ℕ) → i ≤ j → j < i + n → a ≢ slot to j)
    → copy_entries n i from to m a ≡ m a
unfolding copy_entries
copy_entries-else zero i from to m a out = refl
copy_entries-else (suc n) i from to m a out =
    copy_entries-else n (i + 1) from to (put m (slot to i) (m (slot from i))) a
      (λ j lo hi. out j (omega arith) (omega arith))
    ∙ ground (arith, out i (omega arith) (omega arith))

copy_entries-copies :
    (n i from to : ℕ) (m : ℕ → ℕ) (j : ℕ)
    → i + n ≤ 1024
    → i ≤ j
    → j < i + n
    → (to + 4096 ≤ from) ⊎ (from + 4096 ≤ to)
    → copy_entries n i from to m (slot to j) ≡ m (slot from j)
unfolding copy_entries
copy_entries-copies zero i from to m j few lo hi apart = absurd (omega arith)
copy_entries-copies (suc n) i from to m j few lo hi apart = elim (ℕ_discrete i j) [
  | yes e ↦
      copy_entries-else n (i + 1) from to (put m (slot to i) (m (slot from i))) (slot to j)
        (λ k lo' hi'. omega arith)
      ∙ subst (λ k. put m (slot to i) (m (slot from i)) (slot to k) ≡ m (slot from k)) e
          (ground arith)
  | no ne ↦
      copy_entries-copies n (i + 1) from to (put m (slot to i) (m (slot from i))) j (omega arith)
        (omega arith) (omega arith) apart
      ∙ ground arith
]

-- `clone_kernel_space` into a directory that does not overlap the kernel's makes the entries from
-- the kernel's first on equal to the kernel's, and changes no other word of memory.
pub clone_kernel_space_lem :
    (s : Machine) (new_pd : ℕ)
    → (new_pd + 4096 ≤ s.kernel_page_dir) ⊎ (s.kernel_page_dir + 4096 ≤ new_pd)
    → ((i : ℕ)
        → kernel_pd_index ≤ i
        → i < 1024
        → (clone_kernel_space s new_pd).word (slot new_pd i) ≡ s.word (slot s.kernel_page_dir i))
      × ((a : ℕ)
          → ((i : ℕ) → kernel_pd_index ≤ i → i < 1024 → a ≢ slot new_pd i)
          → (clone_kernel_space s new_pd).word a ≡ s.word a)
unfolding clone_kernel_space
clone_kernel_space_lem s new_pd apart = (
  λ i lo hi.
      copy_entries-copies 256 768 s.kernel_page_dir new_pd s.word i (omega arith) lo (omega arith)
        apart,
  λ a out.
      copy_entries-else 256 768 s.kernel_page_dir new_pd s.word a
        (λ j lo hi. out j lo (omega arith)),
)

-- `copy_page` between pages that do not overlap makes every word of the second page equal to that
-- of the first, and changes no word outside it.
pub copy_page_lem :
    (m : ℕ → ℕ) (src dst : ℕ)
    → (dst + 4096 ≤ src) ⊎ (src + 4096 ≤ dst)
    → ((i : ℕ) → i < 1024 → copy_page m src dst (slot dst i) ≡ m (slot src i))
      × ((a : ℕ) → (a < dst) ⊎ (dst + 4096 ≤ a) → copy_page m src dst a ≡ m a)
unfolding copy_page
copy_page_lem m src dst apart = (
  λ i hi. copy_entries-copies 1024 0 src dst m i (omega arith) (omega arith) (omega arith) apart,
  λ a out. copy_entries-else 1024 0 src dst m a (λ j lo hi. omega arith),
)
