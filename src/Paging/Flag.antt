-- ===== src/Paging/Flag.antt =====
-- What the mappings of memory/paging.c leave as it is: whether paging is on, and how many pages there are.
use nika_kernel.Prelude.{
  ℕ, zero, suc, ◌+◌, ◌*◌, ◌≡◌, refl, inl, inr, ◌∙◌, add32, sub32, mul32, ◌/◌, ◌>>>◌, bit_or,
  Bool-cases,
}
use nika_kernel.Pmm.{Pmm, page_size, page_free, set_bit, alloc_from, alloc_page}
use nika_kernel.Paging.{
  Machine, frame_of, page_rw, page_write_through, slot, is_present, ensure_table, map_page,
  map_rounds, map_physical_region, map_framebuffer, identity_rounds, init_pages,
}

alloc_from-total_pages : (n i : ℕ) (s : Pmm) → (alloc_from n i s).1.total_pages ≡ s.total_pages
unfolding alloc_from set_bit
alloc_from-total_pages zero i s = refl
alloc_from-total_pages (suc n) i s = elim (Bool-cases (page_free s i)) [
  | inl free ↦ rw free
  | inr used ↦ rw used (alloc_from-total_pages n (i + 1) s)
]

alloc_page_total : (s : Pmm) → (alloc_page s).1.total_pages ≡ s.total_pages
unfolding alloc_page
alloc_page_total s = alloc_from-total_pages s.total_pages 0 s

-- The parts of the machine that the mappings keep.
abbrev pub Kept : Machine → Machine → Type 0
Kept t s = (t.paging ≡ s.paging) × (t.pmm.total_pages ≡ s.pmm.total_pages)

map_page-Kept : (s : Machine) (pd virt phys flags : ℕ) → Kept (map_page s pd virt phys flags) s
unfolding map_page ensure_table
map_page-Kept s pd virt phys flags =
    elim (Bool-cases (is_present (s.word (slot pd (virt >>> 22))))) [
      | inl there ↦ (rw there, rw there)
      | inr absent ↦ (rw absent, rw absent (alloc_page_total s.pmm))
    ]

map_rounds-Kept :
    (n i : ℕ) (s : Machine) (pd base flags : ℕ) → Kept (map_rounds n i s pd base flags) s
unfolding map_rounds
map_rounds-Kept zero i s pd base flags = (refl, refl)
map_rounds-Kept (suc n) i s pd base flags =
    let addr = add32 base (mul32 i page_size) in
    let first = map_page-Kept s pd addr addr flags in
    let rest = map_rounds-Kept n (i + 1) (map_page s pd addr addr flags) pd base flags in
    (rest.0 ∙ first.0, rest.1 ∙ first.1)

pub map_framebuffer-Kept :
    (s : Machine) (fb_addr fb_size : ℕ) → Kept (map_framebuffer s fb_addr fb_size) s
unfolding map_framebuffer map_physical_region
map_framebuffer-Kept s fb_addr fb_size =
    let aligned = frame_of fb_addr in
    let pages =
      add32 (sub32 (add32 fb_size page_size) 1 / page_size)
        (sub32 (add32 (sub32 fb_addr aligned) page_size) 1 / page_size) in
    map_rounds-Kept pages 0 s s.kernel_page_dir aligned (bit_or page_rw page_write_through)

identity_rounds_total :
    (n i : ℕ) (s : Machine) → (identity_rounds n i s).pmm.total_pages ≡ s.pmm.total_pages
unfolding identity_rounds
identity_rounds_total zero i s = refl
identity_rounds_total (suc n) i s =
    identity_rounds_total n (i + 1)
      (map_page s s.kernel_page_dir (i * page_size) (i * page_size) page_rw)
    ∙ (map_page-Kept s s.kernel_page_dir (i * page_size) (i * page_size) page_rw).1

pub init_pages_total : (s : Machine) → (init_pages s).pmm.total_pages ≡ s.pmm.total_pages
unfolding init_pages
init_pages_total s = identity_rounds_total 2048 0 _ ∙ alloc_page_total s.pmm
