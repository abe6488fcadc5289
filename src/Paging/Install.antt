-- ===== src/Paging/Install.antt =====
-- The first half of `map_page` in memory/paging.c: a new table changes no translation.
use nika_kernel.Prelude.{
  ℕ, ◌+◌, ◌*◌, ◌/◌, ◌%◌, ◌^◌, ◌<◌, ◌≡◌, ◌≢◌, ◌⊎◌, inl, inr, refl, arith, true, false, none, ◌==◌,
  ==_iff, Bool-cases, ap, sym, ◌∙◌,
}
use mathlib.Core.Path.{subst}
use native.Mathlib.Decide.{ℕ_discrete}
use nika_kernel.Pmm.{Pmm, page_free, alloc_page}
use nika_kernel.Pmm.Bitmap.{IsBytes}
use nika_kernel.Pmm.Alloc.{Outcome, Takes, alloc_page-Outcome}
use nika_kernel.Paging.{Machine, slot, put, zero_words, ensure_table}
use nika_kernel.Paging.Entry.{is_present_lem, user_entry_lem}
use nika_kernel.Paging.Walk.{
  decode, walk, walk_absent, walk_through, walk_same, HasTables, zero_words_inside,
  zero_words_outside, zero_words_lt,
}

-- A directory with a table for entry `i`, and the translations from before.
pub record Ensured (s : Machine) (pd i : ℕ) (t : Machine) : Type 0 where
  pub tables : HasTables t pd
  pub present : t.word (slot pd i) % 2 ≡ 1
  pub walks : (v : ℕ) → v < 2 ^ 32 → walk t.word pd v ≡ walk s.word pd v

-- A page that was free becomes the table of entry `i`, which had none.
module _ (s : Machine) (pd i p : ℕ) (pmm : Pmm) (h : HasTables s pd) (index : i < 1024)
    (absent : s.word (slot pd i) % 2 ≡ 0) (small : p < 2 ^ 20) (was_free : page_free s.pmm p ≡ true)
    (takes : Takes s.pmm p pmm) (bytes : IsBytes pmm)
    (total : pmm.total_pages ≡ s.pmm.total_pages) where
  abbrev fresh : ℕ → ℕ
  fresh = zero_words 1024 (p * 4096) s.word

  abbrev installed : Machine
  installed = record s { pmm = pmm; word = put fresh (slot pd i) (p * 4096 + 7) }

  not_dir : p ≢ pd / 4096
  not_dir e = ground (arith, ap (page_free s.pmm) e, h.dir_used)

  word_here : installed.word (slot pd i) ≡ p * 4096 + 7
  word_here = ground arith

  word_else : (a : ℕ) → a ≢ slot pd i → a / 4096 ≢ p → installed.word a ≡ s.word a
  word_else a ne out =
      ground (
        arith,
        zero_words_outside 1024 (p * 4096) s.word a (omega arith) (omega arith) (omega arith),
      )

  word_slot : (j : ℕ) → j < 1024 → j ≢ i → installed.word (slot pd j) ≡ s.word (slot pd j)
  word_slot j lt ne =
      let al = h.aligned in let nd = not_dir in word_else (slot pd j) (omega arith) (omega arith)

  still_used : (q : ℕ) → page_free s.pmm q ≡ false → page_free pmm q ≡ false
  still_used q used = ground (arith, takes q)

  p_used : page_free pmm p ≡ false
  p_used = ground (arith, takes p)

  -- The tables from before are not the new one.
  used_page : (j : ℕ) → j < 1024 → s.word (slot pd j) % 2 ≡ 1 → s.word (slot pd j) / 4096 ≢ p
  used_page j lt on e = ground (arith, ap (page_free s.pmm) e, h.table_used j lt on)

  -- Each entry of the new directory is the new one, or one from before that is not entry `i`.
  entry_cases :
      (j : ℕ)
      → j < 1024
      → ((j ≡ i) × (installed.word (slot pd j) ≡ p * 4096 + 7))
        ⊎ ((j ≢ i) × (installed.word (slot pd j) ≡ s.word (slot pd j)))
  entry_cases j lt = elim (ℕ_discrete j i) [
    | yes e ↦ inl (e, subst (λ k. installed.word (slot pd k) ≡ p * 4096 + 7) (sym e) word_here)
    | no ne ↦ inr (ne, word_slot j lt ne)
  ]

  Tables-installed : HasTables installed pd
  Tables-installed = record {
    bytes = bytes;
    bound = omega (arith, h.bound);
    words = λ a. ground (arith, zero_words_lt 1024 (p * 4096) s.word a h.words);
    aligned = h.aligned;
    dir_used = still_used (pd / 4096) h.dir_used;
    table_used = λ j lt on. ground (
      arith,
      entry_cases j lt,
      h.table_used j lt,
      still_used (s.word (slot pd j) / 4096),
      p_used,
      not_dir,
    );
    apart = λ j k lj lk ne oj ok. ground (
      arith,
      entry_cases j lj,
      entry_cases k lk,
      used_page j lj,
      used_page k lk,
      h.apart j k lj lk ne,
    );
  }

  decode_zero : (j : ℕ) → j < 1024 → decode (installed.word (slot (p * 4096) j)) ≡ none
  decode_zero j lt =
      let al = h.aligned in
      let nd = not_dir in
      let zero_there : installed.word (slot (p * 4096) j) ≡ 0 =
        ground (arith, zero_words_inside 1024 (p * 4096) s.word j lt) in
      ap decode zero_there

  walks_installed : (v : ℕ) → v < 2 ^ 32 → walk installed.word pd v ≡ walk s.word pd v
  walks_installed v word = elim (ℕ_discrete (v / 2 ^ 22) i) [
    | yes e ↦
        let dir : installed.word (slot pd (v / 2 ^ 22)) ≡ p * 4096 + 7 =
          subst (λ k. installed.word (slot pd k) ≡ p * 4096 + 7) (sym e) word_here in
        let off : s.word (slot pd (v / 2 ^ 22)) % 2 ≡ 0 =
          subst (λ k. s.word (slot pd k) % 2 ≡ 0) (sym e) absent in
        let page : (p * 4096 + 7) / 4096 * 4096 ≡ p * 4096 = omega arith in
        walk_through installed.word pd v (p * 4096 + 7) dir (omega arith)
        ∙ ap (λ k. decode (installed.word (slot k (v / 4096 % 1024)))) page
        ∙ decode_zero (v / 4096 % 1024) (omega arith)
        ∙ sym (walk_absent s.word pd v off)
    | no ne ↦
        let lt : v / 2 ^ 22 < 1024 = omega arith in
        walk_same s.word installed.word pd v (word_slot (v / 2 ^ 22) lt ne) λ on.
          let used = used_page (v / 2 ^ 22) lt on in
          let table = h.table_used (v / 2 ^ 22) lt on in
          let al = h.aligned in
          word_else (slot (s.word (slot pd (v / 2 ^ 22)) / 4096 * 4096) (v / 4096 % 1024))
            (omega arith) (omega arith)
  ]

ensure_table_present :
    (s : Machine) (pd i : ℕ) → (s.word (slot pd i) % 2 == 1) ≡ true → ensure_table s pd i ≡ s
unfolding ensure_table
ensure_table_present s pd i on = rw (is_present_lem (s.word (slot pd i)), on)

ensure_table_new :
    (s : Machine) (pd i : ℕ)
    → (s.word (slot pd i) % 2 == 1) ≡ false
    → (alloc_page s.pmm).0 % 4096 ≡ 0
    → ensure_table s pd i ≡ record s {
      pmm = (alloc_page s.pmm).1;
      word =
          put (zero_words 1024 (alloc_page s.pmm).0 s.word) (slot pd i) ((alloc_page s.pmm).0 + 7);
    }
unfolding ensure_table
ensure_table_new s pd i off aligned =
    rw (is_present_lem (s.word (slot pd i)), off, user_entry_lem (alloc_page s.pmm).0 aligned)

ensure_table_absent :
    (s : Machine) (pd i : ℕ)
    → HasTables s pd
    → i < 1024
    → (s.word (slot pd i) % 2 == 1) ≡ false
    → (alloc_page s.pmm).0 ≢ 0
    → Outcome s.pmm 0 s.pmm.total_pages (alloc_page s.pmm)
    → Ensured s pd i (ensure_table s pd i)
ensure_table_absent s pd i h index off supply (inr full) =
    absurd (supply (ap (λ (x : ℕ × Pmm). x.0) full.unchanged))
ensure_table_absent s pd i h index off supply (inl (p, f)) =
    let pmm = (alloc_page s.pmm).1 in
    let small : p < 2 ^ 20 = omega (arith, f.below, h.bound) in
    let address : (alloc_page s.pmm).0 ≡ p * 4096 = omega (arith, f.address) in
    let absent : s.word (slot pd i) % 2 ≡ 0 = ground arith in
    let fresh = ensure_table_new s pd i off (omega arith) in
    let shape : ensure_table s pd i ≡ record s {
      pmm = pmm;
      word = put (zero_words 1024 (p * 4096) s.word) (slot pd i) (p * 4096 + 7);
    } =
      fresh
      ∙ ap
          (λ k.
            let m : Machine = record s {
              pmm = pmm;
              word = put (zero_words 1024 k s.word) (slot pd i) (k + 7);
            } in
            m)
          address in
    subst (Ensured s pd i) (sym shape) (record {
      tables =
          Tables-installed s pd i p pmm h index absent small f.was_free f.takes f.bytes
            f.same_total;
      present =
          ap (λ (k : ℕ). k % 2)
            (word_here s pd i p pmm h index absent small f.was_free f.takes f.bytes f.same_total)
          ∙ omega arith;
      walks =
          walks_installed s pd i p pmm h index absent small f.was_free f.takes f.bytes f.same_total;
    })

-- `ensure_table` keeps the invariant and every translation and leaves a table for the entry, if
-- there was one or the page allocator gives a page other than page 0.
pub ensure_table-Ensured :
    (s : Machine) (pd i : ℕ)
    → HasTables s pd
    → i < 1024
    → (s.word (slot pd i) % 2 ≡ 1) ⊎ ((alloc_page s.pmm).0 ≢ 0)
    → Ensured s pd i (ensure_table s pd i)
ensure_table-Ensured s pd i h index supply = elim (Bool-cases (s.word (slot pd i) % 2 == 1)) [
  | inl on ↦
      subst (Ensured s pd i) (sym (ensure_table_present s pd i on))
        (record { tables = h; present = (==_iff _ 1).0 on; walks = λ v word. refl })
  | inr off ↦
      ensure_table_absent s pd i h index off (ground arith) (alloc_page-Outcome s.pmm h.bytes)
]
