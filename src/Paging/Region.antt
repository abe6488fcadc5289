-- ===== src/Paging/Region.antt =====
-- `map_physical_region` of memory/paging.c maps the pages of a region to themselves, and no other.
use mathlib.Core.Path.{subst}
use nika_kernel.Prelude.{
  ℕ, zero, suc, ◌+◌, ◌*◌, ◌/◌, ◌%◌, ◌^◌, ◌≤◌, ◌<◌, ◌≡◌, ◌⊎◌, inl, inr, arith, some, false, true,
  ◌==◌, ◌&&◌, leb, ltb, ==_iff, Bool-cases, if◌then◌else◌, ap, sym, ◌∙◌, add32, sub32, mul32,
}
use nika_kernel.Pmm.{Pmm, page_size, alloc_page}
use nika_kernel.Paging.{Machine, map_page, map_rounds, map_physical_region, map_framebuffer}
use nika_kernel.Paging.Entry.{frame_of_lem}
use nika_kernel.Paging.Walk.{walk, HasTables}
use nika_kernel.Paging.Map.{map_page-walk, entry_bits}
use nika_kernel.Paging.Supply.{Supply, Supply-fewer, pmm-map_page}

-- What the allocator has left when one page less may be needed.
Supply-left : (n : ℕ) (p q : Pmm) → Supply (suc n) p → (q ≡ p) ⊎ (q ≡ (alloc_page p).1) → Supply n q
Supply-left n p q h (inl e) = subst (Supply n) (sym e) (Supply-fewer n p h)
Supply-left n p q h (inr e) = subst (Supply n) (sym e) h.1

-- Over a directory whose tables are distinct pages in use, with a page to be had for each round, the
-- loop translates the pages from number `first` on to themselves, and no other page.
pub map_rounds-walk :
    (n i first : ℕ) (s : Machine) (pd flags : ℕ)
    → HasTables s pd
    → first + i + n ≤ 2 ^ 20
    → Supply n s.pmm
    → let t = map_rounds n i s pd (first * 4096) flags in
      HasTables t pd
      × ((v : ℕ)
          → v < 2 ^ 32
          → walk t.word pd v ≡ (
              if leb (first + i) (v / 4096) && ltb (v / 4096) (first + i + n)
              then some (v / 4096 * 4096, entry_bits flags)
              else walk s.word pd v))
unfolding map_rounds
map_rounds-walk zero i first s pd flags h room stock = (h, λ v word. ground arith)
map_rounds-walk (suc n) i first s pd flags h room stock =
    let addr = add32 (first * 4096) (mul32 i page_size) in
    let at : addr ≡ (first + i) * 4096 = omega arith in
    let m =
      map_page-walk s pd addr addr flags h (omega arith) (omega arith) (omega arith)
        (inr stock.0) in
    let t = map_page s pd addr addr flags in
    let rest =
      map_rounds-walk n (i + 1) first t pd flags m.0 (omega arith)
        (Supply-left n s.pmm t.pmm stock (pmm-map_page s pd addr addr flags)) in
    let page : addr / 4096 ≡ first + i = omega arith in
    (
      rest.0,
      λ v word.
          rest.1 v word
          ∙ (let now = m.1 v word in
              elim (Bool-cases (v / 4096 == addr / 4096)) [
                | inl hit ↦
                    let same = (==_iff _ _).0 hit in
                    let inside : (leb (first + i) (v / 4096) && ltb (v / 4096) (first + i + suc n))
                        ≡ true =
                      ground arith in
                    let behind : (leb (first + (i + 1)) (v / 4096)
                          && ltb (v / 4096) (first + (i + 1) + n))
                        ≡ false =
                      ground arith in
                    let frame : addr ≡ v / 4096 * 4096 = omega arith in
                    rw (inside, behind)
                      (now
                        ∙ ap (λ b. if b then some (addr, entry_bits flags) else walk s.word pd v)
                            hit
                        ∙ ap (λ a. some (a, entry_bits flags)) frame)
                | inr miss ↦
                    let same : (leb (first + (i + 1)) (v / 4096)
                          && ltb (v / 4096) (first + (i + 1) + n))
                        ≡ (leb (first + i) (v / 4096) && ltb (v / 4096) (first + i + suc n)) =
                      ground arith in
                    rw same (
                      ap
                        (λ o.
                          if leb (first + i) (v / 4096) && ltb (v / 4096) (first + i + suc n)
                          then some (v / 4096 * 4096, entry_bits flags)
                          else o)
                        (now
                          ∙ ap (λ b. if b then some (addr, entry_bits flags) else walk s.word pd v)
                              miss))
              ]),
    )

-- The loop of `map_framebuffer` at an address on a page border.
map_framebuffer-map_rounds :
    (s : Machine) (addr size : ℕ)
    → addr < 2 ^ 32
    → addr % 4096 ≡ 0
    → size + 4096 < 2 ^ 32
    → map_framebuffer s addr size
      ≡ map_rounds ((size + 4095) / 4096) 0 s s.kernel_page_dir (addr / 4096 * 4096) 0xa
unfolding map_framebuffer map_physical_region
map_framebuffer-map_rounds s addr size word border fits =
    let count = λ (a : ℕ).
      add32 (sub32 (add32 size page_size) 1 / page_size)
        (sub32 (add32 (sub32 addr a) page_size) 1 / page_size) in
    ap (λ (a : ℕ). map_rounds (count a) 0 s s.kernel_page_dir a 0xa) (frame_of_lem addr word)
    ∙ ap (λ (n : ℕ). map_rounds n 0 s s.kernel_page_dir (addr / 4096 * 4096) 0xa)
        {x = count (addr / 4096 * 4096)} {y = (size + 4095) / 4096} (omega arith)

-- Over a directory whose tables are distinct pages in use, with a page to be had for each page of it,
-- a framebuffer at a page border is translated to itself, to be written by the kernel, and the
-- translation of every other page is as it was.
pub map_framebuffer-walk :
    (s : Machine) (addr size : ℕ)
    → HasTables s s.kernel_page_dir
    → addr % 4096 ≡ 0
    → size + 4096 < 2 ^ 32
    → addr + size ≤ 2 ^ 32
    → 0 < size
    → Supply ((size + 4095) / 4096) s.pmm
    → let t = map_framebuffer s addr size in
      HasTables t s.kernel_page_dir
      × ((v : ℕ)
          → v < 2 ^ 32
          → walk t.word s.kernel_page_dir v ≡ (
              if leb (addr / 4096) (v / 4096) && ltb (v / 4096) (addr / 4096 + (size + 4095) / 4096)
              then some (v / 4096 * 4096, 11)
              else walk s.word s.kernel_page_dir v))
map_framebuffer-walk s addr size h border fits top some_bytes stock =
    let m =
      map_rounds-walk ((size + 4095) / 4096) 0 (addr / 4096) s s.kernel_page_dir 0xa h (omega arith)
        stock in
    let start : addr / 4096 + 0 ≡ addr / 4096 = omega arith in
    subst
      (λ (t : Machine).
        HasTables t s.kernel_page_dir
        × ((v : ℕ)
            → v < 2 ^ 32
            → walk t.word s.kernel_page_dir v ≡ (
                if leb (addr / 4096) (v / 4096)
                  && ltb (v / 4096) (addr / 4096 + (size + 4095) / 4096)
                then some (v / 4096 * 4096, 11)
                else walk s.word s.kernel_page_dir v)))
      (sym (map_framebuffer-map_rounds s addr size (omega arith) border fits))
      (
        m.0,
        λ v word.
            subst
              (λ a.
                walk
                  (map_rounds ((size + 4095) / 4096) 0 s s.kernel_page_dir (addr / 4096 * 4096)
                    0xa).word
                  s.kernel_page_dir v
                ≡ (if leb a (v / 4096) && ltb (v / 4096) (a + (size + 4095) / 4096)
                    then some (v / 4096 * 4096, 11)
                    else walk s.word s.kernel_page_dir v))
              start (m.1 v word),
      )
