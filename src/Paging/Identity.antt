-- ===== src/Paging/Identity.antt =====
-- `init_pages` of memory/paging.c maps the first 8 MiB to themselves, and nothing else.
use mathlib.Core.Path.{subst}
use nika_kernel.Prelude.{
  ℕ, zero, suc, ◌+◌, ◌-◌, ◌*◌, ◌/◌, ◌%◌, ◌^◌, ◌≤◌, ◌<◌, ◌≡◌, ◌≢◌, ◌⊎◌, inl, inr, refl, arith, true,
  false, Option, none, some, ◌==◌, ltb, ==_iff, Bool-cases, if◌then◌else◌, ap, sym, ◌∙◌,
}
use nika_kernel.Pmm.{Pmm, page_free, alloc_page}
use nika_kernel.Pmm.Bitmap.{IsBytes}
use nika_kernel.Pmm.Alloc.{Found, Outcome, alloc_page-Outcome}
use nika_kernel.Paging.{Machine, slot, zero_words, map_page, identity_rounds, init_pages, page_rw}
use nika_kernel.Paging.Walk.{walk, walk_absent, HasTables, zero_words_inside, zero_words_lt}
use nika_kernel.Paging.Map.{map_page-walk}
use nika_kernel.Paging.Supply.{
  Supply, Supply-fewer, pmm-map_page, pmm-map_page_present, kernel_page_dir-map_page,
  walk-some_present,
}

-- The first `i` pages map to themselves, to be read and written by the kernel, and no other page
-- is mapped.
abbrev pub identity_below : ℕ → ℕ → Option (ℕ × ℕ)
identity_below i v = if ltb (v / 4096) i then some (v / 4096 * 4096, 3) else none

-- The state of the loop before page `i`, with `n` tables still to come.
record Identity (pd i n : ℕ) (s : Machine) : Type 0 where
  tables : HasTables s pd
  walks : (v : ℕ) → v < 2 ^ 32 → walk s.word pd v ≡ identity_below i v
  supply : Supply n s.pmm
  dir : s.kernel_page_dir ≡ pd

module _ (pd i n : ℕ) (s : Machine) (low : i < 2 ^ 20) where
  abbrev next : Machine
  next = map_page s pd (i * 4096) (i * 4096) page_rw

  Identity-next :
      {k : ℕ}
      → Identity pd i k s
      → (s.word (slot pd (i * 4096 / 2 ^ 22)) % 2 ≡ 1) ⊎ ((alloc_page s.pmm).0 ≢ 0)
      → Supply n next.pmm
      → Identity pd (i + 1) n next
  Identity-next h supply left =
      let m =
        map_page-walk s pd (i * 4096) (i * 4096) page_rw h.tables (omega arith) (omega arith)
          (omega arith) supply in
      record {
        tables = m.0;
        walks = λ v word. m.1 v word ∙ ground (arith, h.walks v word);
        supply = left;
        dir = kernel_page_dir-map_page s pd (i * 4096) (i * 4096) page_rw ∙ h.dir;
      }

-- How many of the two tables are still to come at page `i`.
abbrev tables_left : ℕ → ℕ
tables_left i = 2 - (i + 1023) / 1024

Identity-first :
    (pd i : ℕ) (s : Machine)
    → i < 2048
    → i % 1024 ≡ 0
    → Identity pd i (tables_left i) s
    → Identity pd (i + 1) (tables_left (i + 1)) (map_page s pd (i * 4096) (i * 4096) page_rw)
Identity-first pd i s lt edge h =
    let m = tables_left (i + 1) in
    let count : tables_left i ≡ suc m = omega arith in
    let stock : Supply (suc m) s.pmm = subst (λ k. Supply k s.pmm) count h.supply in
    Identity-next pd i m s (omega arith) h (inr stock.0)
      (left_over m s.pmm stock (pmm-map_page s pd (i * 4096) (i * 4096) page_rw))
  where
    left_over :
        (m : ℕ) (p : Pmm) {q : Pmm}
        → Supply (suc m) p
        → (q ≡ p) ⊎ (q ≡ (alloc_page p).1)
        → Supply m q
    left_over m p h (inl e) = subst (Supply m) (sym e) (Supply-fewer m p h)
    left_over m p h (inr e) = subst (Supply m) (sym e) h.1

Identity-inside :
    (pd i : ℕ) (s : Machine)
    → i < 2048
    → i % 1024 ≢ 0
    → Identity pd i (tables_left i) s
    → Identity pd (i + 1) (tables_left (i + 1)) (map_page s pd (i * 4096) (i * 4096) page_rw)
Identity-inside pd i s lt inside h =
    let before : walk s.word pd ((i - 1) * 4096) ≡ some ((i - 1) * 4096, 3) =
      h.walks ((i - 1) * 4096) (omega arith) ∙ ground arith in
    let there = walk-some_present s.word pd ((i - 1) * 4096) _ before in
    let index : (i - 1) * 4096 / 2 ^ 22 ≡ i * 4096 / 2 ^ 22 = omega arith in
    let on = subst (λ k. s.word (slot pd k) % 2 ≡ 1) index there in
    Identity-next pd i (tables_left (i + 1)) s (omega arith) h (inl on) (
      subst (Supply (tables_left (i + 1)))
        (sym (pmm-map_page_present s pd (i * 4096) (i * 4096) page_rw on))
        (subst (λ k. Supply k s.pmm) (omega arith) h.supply))

identity_rounds-Identity :
    (pd n i : ℕ) (s : Machine)
    → i + n ≡ 2048
    → Identity pd i (tables_left i) s
    → Identity pd 2048 0 (identity_rounds n i s)
unfolding identity_rounds
identity_rounds-Identity pd zero i s e h =
    subst (λ k. Identity pd k (tables_left k) s) {x = i} {y = 2048} (omega arith) h
identity_rounds-Identity pd (suc n) i s e h =
    let step : Identity pd (i + 1) (tables_left (i + 1))
        (map_page s pd (i * 4096) (i * 4096) page_rw) =
      elim (Bool-cases (i % 1024 == 0)) [
        | inl edge ↦ Identity-first pd i s (omega arith) ((==_iff _ 0).0 edge) h
        | inr inside ↦ Identity-inside pd i s (omega arith) (λ k. ground arith) h
      ] in
    subst
      (λ d.
        Identity pd 2048 0 (identity_rounds n (i + 1) (map_page s d (i * 4096) (i * 4096) page_rw)))
      (sym h.dir)
      (identity_rounds-Identity pd n (i + 1) (map_page s pd (i * 4096) (i * 4096) page_rw)
        (omega arith) step)

-- The zeroed directory at page `p` of the allocator.
empty-Identity :
    (s : Machine) (p : ℕ)
    → Found s.pmm 0 s.pmm.total_pages p (alloc_page s.pmm)
    → s.pmm.total_pages ≤ 2 ^ 20
    → ((a : ℕ) → s.word a < 2 ^ 32)
    → Supply 2 (alloc_page s.pmm).1
    → let pd = (alloc_page s.pmm).0 in
      Identity pd 0 2 (record s {
        pmm = (alloc_page s.pmm).1;
        word = zero_words 1024 pd s.word;
        kernel_page_dir = pd;
      })
empty-Identity s p f bound words stock =
    let pd = (alloc_page s.pmm).0 in
    let address : pd ≡ p * 4096 = omega (arith, f.address, f.below) in
    let number : pd / 4096 ≡ p = omega arith in
    let p_used : page_free (alloc_page s.pmm).1 p ≡ false = ground (arith, f.takes p) in
    let none_there : (i : ℕ) → i < 1024 → zero_words 1024 pd s.word (slot pd i) ≡ 0 =
      λ i lt. zero_words_inside 1024 pd s.word i lt in
    record {
      tables = record {
        bytes = f.bytes;
        bound = omega (arith, f.same_total);
        words = λ a. zero_words_lt 1024 pd s.word a words;
        aligned = omega arith;
        dir_used = subst (λ k. page_free (alloc_page s.pmm).1 k ≡ false) (sym number) p_used;
        table_used = λ i lt on. absurd (omega (arith, none_there i lt));
        apart = λ i j lt lt' ne on on'. absurd (omega (arith, none_there i lt));
      };
      walks = λ v word.
          let lt : v / 2 ^ 22 < 1024 = omega arith in
          walk_absent (zero_words 1024 pd s.word) pd v (omega (arith, none_there (v / 2 ^ 22) lt))
          ∙ ground arith;
      supply = stock;
      dir = refl;
    }

-- The state after the loop, once paging is on.
enter :
    (pd : ℕ) (u : Machine)
    → Identity pd 2048 0 u
    → let t : Machine = record u { cr3 = pd; paging = true } in
      (t.paging ≡ true)
      × (t.cr3 ≡ t.kernel_page_dir)
      × HasTables t t.kernel_page_dir
      × ((v : ℕ)
          → v < 2 ^ 32
          → walk t.word t.kernel_page_dir v
            ≡ (if ltb v 0x800000 then some (v / 4096 * 4096, 3) else none))
enter pd u h =
    let dir = sym h.dir in
    let tables : HasTables u u.kernel_page_dir = subst (HasTables u) dir h.tables in
    (
      refl,
      dir,
      record {
        bytes = tables.bytes;
        bound = tables.bound;
        words = tables.words;
        aligned = tables.aligned;
        dir_used = tables.dir_used;
        table_used = tables.table_used;
        apart = tables.apart;
      },
      λ v word.
          subst (λ d. walk u.word d v ≡ identity_below 2048 v) dir (h.walks v word) ∙ ground arith,
    )

-- With three pages to be had from the allocator, `init_pages` turns paging on with a directory
-- that translates every address below 8 MiB to itself, as present and writable for the kernel, and
-- has no translation for any other address; its tables are distinct pages that are in use.
pub init_pages-walk :
    (s : Machine)
    → IsBytes s.pmm
    → s.pmm.total_pages ≤ 2 ^ 20
    → ((a : ℕ) → s.word a < 2 ^ 32)
    → Supply 3 s.pmm
    → let t = init_pages s in
      (t.paging ≡ true)
      × (t.cr3 ≡ t.kernel_page_dir)
      × HasTables t t.kernel_page_dir
      × ((v : ℕ)
          → v < 2 ^ 32
          → walk t.word t.kernel_page_dir v
            ≡ (if ltb v 0x800000 then some (v / 4096 * 4096, 3) else none))
unfolding init_pages
init_pages-walk s bytes bound words stock = start (alloc_page-Outcome s.pmm bytes)
  where
    pd : ℕ
    pd = (alloc_page s.pmm).0

    empty : Machine
    empty = record s {
      pmm = (alloc_page s.pmm).1;
      word = zero_words 1024 pd s.word;
      kernel_page_dir = pd;
    }

    start :
        Outcome s.pmm 0 s.pmm.total_pages (alloc_page s.pmm)
        → let t = init_pages s in
          (t.paging ≡ true)
          × (t.cr3 ≡ t.kernel_page_dir)
          × HasTables t t.kernel_page_dir
          × ((v : ℕ)
              → v < 2 ^ 32
              → walk t.word t.kernel_page_dir v
                ≡ (if ltb v 0x800000 then some (v / 4096 * 4096, 3) else none))
    start (inr full) = absurd (stock.0 (ap (λ (x : ℕ × Pmm). x.0) full.unchanged))
    start (inl (p, f)) =
        enter pd (identity_rounds 2048 0 empty)
          (identity_rounds-Identity pd 2048 0 empty refl (empty-Identity s p f bound words stock.1))
