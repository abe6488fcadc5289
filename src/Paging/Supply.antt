-- ===== src/Paging/Supply.antt =====
-- What `map_page` of memory/paging.c takes from the page allocator.
use nika_kernel.Prelude.{
  ℕ, zero, suc, ◌/◌, ◌%◌, ◌^◌, ◌≡◌, ◌≢◌, ◌⊎◌, inl, inr, arith, some, ==_iff, Bool-cases,
}
use nika_kernel.Pmm.{Pmm, alloc_page}
use nika_kernel.Paging.{Machine, slot, is_present, ensure_table, create_page_table, map_page}
use nika_kernel.Paging.Entry.{is_present_lem}
use nika_kernel.Paging.Walk.{walk}

-- The next `n` pages that the allocator gives are pages, not NULL.
abbrev pub Supply : ℕ → Pmm → Type 0
Supply zero p = Unit
Supply (suc n) p = ((alloc_page p).0 ≢ 0) × Supply n (alloc_page p).1

pub Supply-fewer : (n : ℕ) (p : Pmm) → Supply (suc n) p → Supply n p
Supply-fewer zero p h = tt
Supply-fewer (suc n) p h = (h.0, Supply-fewer n (alloc_page p).1 h.1)

pub pmm-map_page :
    (s : Machine) (pd virt phys flags : ℕ)
    → ((map_page s pd virt phys flags).pmm ≡ s.pmm)
      ⊎ ((map_page s pd virt phys flags).pmm ≡ (alloc_page s.pmm).1)
unfolding map_page ensure_table create_page_table
pmm-map_page s pd virt phys flags =
    elim (Bool-cases (is_present (s.word (slot pd (virt / 2 ^ 22))))) [
      | inl on ↦ inl (rw on)
      | inr off ↦ inr (rw off)
    ]

pub pmm-map_page_present :
    (s : Machine) (pd virt phys flags : ℕ)
    → s.word (slot pd (virt / 2 ^ 22)) % 2 ≡ 1
    → (map_page s pd virt phys flags).pmm ≡ s.pmm
unfolding map_page ensure_table create_page_table
pmm-map_page_present s pd virt phys flags on =
    rw (is_present_lem (s.word (slot pd (virt / 2 ^ 22))), (==_iff _ 1).1 on)

pub kernel_page_dir-map_page :
    (s : Machine) (pd virt phys flags : ℕ)
    → (map_page s pd virt phys flags).kernel_page_dir ≡ s.kernel_page_dir
unfolding map_page ensure_table create_page_table
kernel_page_dir-map_page s pd virt phys flags =
    elim (Bool-cases (is_present (s.word (slot pd (virt / 2 ^ 22))))) [
      | inl on ↦ rw on
      | inr off ↦ rw off
    ]

pub walk-some_present :
    (m : ℕ → ℕ) (pd v : ℕ) (x : ℕ × ℕ) → walk m pd v ≡ some x → m (slot pd (v / 2 ^ 22)) % 2 ≡ 1
unfolding walk
walk-some_present m pd v x e = ground arith
