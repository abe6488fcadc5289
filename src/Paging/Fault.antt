-- ===== src/Paging/Fault.antt =====
-- memory/pf.c: the page that a page fault maps.
use mathlib.Core.Path.{subst}
use nika_kernel.Prelude.{
  Bool-cases, false, ◌>>>◌, ℕ, ◌*◌, ◌/◌, ◌^◌, ◌<◌, ◌≡◌, ◌≢◌, inl, inr, arith, true, some, ◌==◌,
  if◌then◌else◌, ap, sym, ◌∙◌,
}
use nika_kernel.Pmm.{Pmm, page_free, alloc_page}
use nika_kernel.Pmm.Alloc.{Found, Outcome, alloc_page-Outcome, alloc_page-used}
use nika_kernel.Pmm.Bitmap.{IsBytes}
use nika_kernel.Paging.{
  Machine, slot, is_present, create_page_table, ensure_table, map_page, page_fault_handler,
}
use nika_kernel.Paging.Entry.{frame_of_lem}
use nika_kernel.Paging.Walk.{walk, HasTables}
use nika_kernel.Paging.Map.{map_page-walk}

-- A page taken from the allocator leaves the invariant alone.
Tables-alloc_page :
    (s : Machine) (pd p : ℕ)
    → HasTables s pd
    → Found s.pmm 0 s.pmm.total_pages p (alloc_page s.pmm)
    → HasTables (record s { pmm = (alloc_page s.pmm).1 }) pd
Tables-alloc_page s pd p h f = record {
  bytes = f.bytes;
  bound = omega (arith, f.same_total, h.bound);
  words = h.words;
  aligned = h.aligned;
  dir_used = ground (arith, f.takes (pd / 4096), h.dir_used);
  table_used = λ i lt on. ground (arith, f.takes (s.word (slot pd i) / 4096), h.table_used i lt on);
  apart = h.apart;
}

-- `map_page` takes at most one page from the allocator, and frees none.
map_page-used :
    (s : Machine) (pd virt phys flags q : ℕ)
    → IsBytes s.pmm
    → page_free s.pmm q ≡ false
    → page_free (map_page s pd virt phys flags).pmm q ≡ false
unfolding map_page ensure_table create_page_table
map_page-used s pd virt phys flags q h used =
    elim (Bool-cases (is_present (s.word (slot pd (virt >>> 22))))) [
      | inl there ↦ rw there used
      | inr missing ↦ rw missing (alloc_page-used s.pmm q h used)
    ]

-- A page fault at `addr`, over a directory whose tables are distinct pages in use, when the page
-- allocator gives two pages other than page 0: the page of `addr` is then translated to the first
-- of them, which was free before and is in use now, and its table entry has the bits for present, writing and
-- the user; the translation of every other address is as it was. The error code does not matter, even for a protection fault.
pub page_fault_handler-walk :
    (s : Machine) (pd error addr : ℕ)
    → HasTables s pd
    → addr < 2 ^ 32
    → (alloc_page s.pmm).0 ≢ 0
    → (alloc_page (alloc_page s.pmm).1).0 ≢ 0
    → let t = page_fault_handler s pd error addr in
      let page = (alloc_page s.pmm).0 in
      (page_free s.pmm (page / 4096) ≡ true)
      × (page_free t.pmm (page / 4096) ≡ false)
      × HasTables t pd
      × ((v : ℕ)
          → v < 2 ^ 32
          → walk t.word pd v
            ≡ (if v / 4096 == addr / 4096 then some (page, 7) else walk s.word pd v))
unfolding page_fault_handler
page_fault_handler-walk s pd error addr h word first second =
    start (alloc_page-Outcome s.pmm h.bytes)
  where
    start :
        Outcome s.pmm 0 s.pmm.total_pages (alloc_page s.pmm)
        → let t = page_fault_handler s pd error addr in
          let page = (alloc_page s.pmm).0 in
          (page_free s.pmm (page / 4096) ≡ true)
          × (page_free t.pmm (page / 4096) ≡ false)
          × HasTables t pd
          × ((v : ℕ)
              → v < 2 ^ 32
              → walk t.word pd v
                ≡ (if v / 4096 == addr / 4096 then some (page, 7) else walk s.word pd v))
    start (inr full) = absurd (first (ap (λ (x : ℕ × Pmm). x.0) full.unchanged))
    start (inl (p, f)) =
        let address : (alloc_page s.pmm).0 ≡ p * 4096 =
          omega (arith, f.address, f.below, h.bound) in
        let number : p ≡ (alloc_page s.pmm).0 / 4096 = omega arith in
        let u : Machine = record s { pmm = (alloc_page s.pmm).1 } in
        let m =
          map_page-walk u pd (addr / 4096 * 4096) (alloc_page s.pmm).0 6
            (Tables-alloc_page s pd p h f) (omega arith) (omega arith)
            (omega (arith, f.below, h.bound)) (inr second) in
        let index : addr / 4096 * 4096 / 4096 ≡ addr / 4096 = omega arith in
        let free = subst (λ k. page_free s.pmm k ≡ true) number f.was_free in
        let gone : page_free (alloc_page s.pmm).1 ((alloc_page s.pmm).0 / 4096) ≡ false =
          f.takes _ ∙ ground arith in
        subst
          (λ a.
            let t = map_page u pd a (alloc_page s.pmm).0 6 in
            (page_free s.pmm ((alloc_page s.pmm).0 / 4096) ≡ true)
            × (page_free t.pmm ((alloc_page s.pmm).0 / 4096) ≡ false)
            × HasTables t pd
            × ((v : ℕ)
                → v < 2 ^ 32
                → walk t.word pd v ≡ (
                    if v / 4096 == addr / 4096
                    then some ((alloc_page s.pmm).0, 7)
                    else walk s.word pd v)))
          (sym (frame_of_lem addr word))
          (free, map_page-used u pd _ _ 6 _ f.bytes gone, m.0, λ v vw. m.1 v vw ∙ rw index)
