-- ===== src/Paging/Map.antt =====
-- `map_page` of memory/paging.c maps one page, and no other.
use mathlib.Core.Path.{subst}
use native.Mathlib.Decide.{ℕ_discrete}
use nika_kernel.Prelude.{
  ℕ, ◌+◌, ◌*◌, ◌/◌, ◌%◌, ◌^◌, ◌<◌, ◌≡◌, ◌≢◌, ◌⊎◌, inl, inr, arith, false, some, ◌==◌, ==_iff,
  Bool-cases, if◌then◌else◌, ap, sym, ◌∙◌,
}
use nika_kernel.Prelude.Bits.{bit_and-low}
use nika_kernel.Pmm.{page_free, alloc_page}
use nika_kernel.Paging.{Machine, slot, store, ensure_table, map_page}
use nika_kernel.Paging.Entry.{frame_of_lem, page_entry_lem}
use nika_kernel.Paging.Walk.{decode, walk, walk_through, walk_same, HasTables}
use nika_kernel.Paging.Install.{ensure_table-Ensured}

-- A write of the entry for `virt` into the table that the directory has for it.
module _ (s : Machine) (pd virt phys low : ℕ) (h : HasTables s pd) (word : virt < 2 ^ 32)
    (aligned : phys % 4096 ≡ 0) (phys_word : phys < 2 ^ 32) (odd : low % 2 ≡ 1)
    (low_bits : low < 4096) (on : s.word (slot pd (virt / 2 ^ 22)) % 2 ≡ 1) where
  abbrev table : ℕ
  table = s.word (slot pd (virt / 2 ^ 22)) / 4096

  abbrev written : Machine
  written = store s (slot (table * 4096) (virt / 4096 % 1024)) (phys + low)

  -- A write into the table leaves every other page of memory alone.
  other_page : (a : ℕ) → a / 4096 ≢ table → written.word a ≡ s.word a
  other_page a ne = ground arith

  dir_kept : (j : ℕ) → j < 1024 → written.word (slot pd j) ≡ s.word (slot pd j)
  dir_kept j lt =
      let al = h.aligned in
      let t = h.table_used (virt / 2 ^ 22) (omega arith) on in
      other_page (slot pd j) (λ e. t.1 (omega arith))

  Tables-written : HasTables written pd
  Tables-written = record {
    bytes = h.bytes;
    bound = h.bound;
    words = λ a. ground (arith, h.words a);
    aligned = h.aligned;
    dir_used = h.dir_used;
    table_used = λ j lt o.
        subst (λ e. (page_free s.pmm (e / 4096) ≡ false) × (e / 4096 ≢ pd / 4096))
          (sym (dir_kept j lt))
          (h.table_used j lt (ap (λ (e : ℕ). e % 2) (sym (dir_kept j lt)) ∙ o));
    apart =
        λ j k lj lk ne oj ok. ground (arith, dir_kept j lj, dir_kept k lk, h.apart j k lj lk ne);
  }

  decode_entry : decode (phys + low) ≡ some (phys, low)
  decode_entry =
      let frame : (phys + low) / 4096 * 4096 ≡ phys = omega arith in
      let bits : (phys + low) % 4096 ≡ low = omega arith in
      let here : (phys + low) % 2 ≡ 1 = omega arith in rw ((==_iff _ 1).1 here, frame, bits)

  walk_written_here :
      (v : ℕ) → v < 2 ^ 32 → v / 4096 ≡ virt / 4096 → walk written.word pd v ≡ some (phys, low)
  walk_written_here v vw e =
      let index : v / 2 ^ 22 ≡ virt / 2 ^ 22 = omega arith in
      let dir : written.word (slot pd (v / 2 ^ 22)) ≡ s.word (slot pd (virt / 2 ^ 22)) =
        dir_kept (v / 2 ^ 22) (omega arith) ∙ ap (λ k. s.word (slot pd k)) index in
      let hit : written.word (slot (table * 4096) (v / 4096 % 1024)) ≡ phys + low = ground arith in
      walk_through written.word pd v (s.word (slot pd (virt / 2 ^ 22))) dir on
      ∙ ap decode hit
      ∙ decode_entry

  walk_written_else :
      (v : ℕ) → v < 2 ^ 32 → v / 4096 ≢ virt / 4096 → walk written.word pd v ≡ walk s.word pd v
  walk_written_else v vw ne =
      walk_same s.word written.word pd v (dir_kept (v / 2 ^ 22) (omega arith)) λ o.
        elim (ℕ_discrete (v / 2 ^ 22) (virt / 2 ^ 22)) [
          | yes e ↦
              let same : s.word (slot pd (v / 2 ^ 22)) ≡ s.word (slot pd (virt / 2 ^ 22)) =
                ap (λ k. s.word (slot pd k)) e in
              ground arith
          | no other ↦
              let ap' =
                h.apart (v / 2 ^ 22) (virt / 2 ^ 22) (omega arith) (omega arith) other o on in
              other_page (slot (s.word (slot pd (v / 2 ^ 22)) / 4096 * 4096) (v / 4096 % 1024))
                (λ k. ap' (omega arith))
        ]

map_page-store :
    (s : Machine) (pd virt phys flags : ℕ)
    → HasTables (ensure_table s pd (virt / 2 ^ 22)) pd
    → phys % 4096 ≡ 0
    → let t = ensure_table s pd (virt / 2 ^ 22) in
      map_page s pd virt phys flags
      ≡ store t
          (slot (t.word (slot pd (virt / 2 ^ 22)) / 4096 * 4096) (virt / 4096 % 1024))
          (phys + (flags % 4096 / 2 * 2 + 1))
unfolding map_page
map_page-store s pd virt phys flags h aligned =
    let t = ensure_table s pd (virt / 2 ^ 22) in
    rw (
      frame_of_lem (t.word (slot pd (virt / 2 ^ 22))) (h.words (slot pd (virt / 2 ^ 22))),
      bit_and-low 10 (virt / 4096),
      page_entry_lem phys flags aligned,
    )

-- The bits that `map_page` puts into the entry: the low twelve flags, and the bit for present.
abbrev pub entry_bits : ℕ → ℕ
entry_bits flags = flags % 4096 / 2 * 2 + 1

-- Over a directory whose tables are distinct pages in use, if the directory has a table for `virt`
-- or the page allocator gives a page other than page 0, `map_page` of an aligned page translates
-- every address of the page of `virt` to `phys` with the given flags and the bit for present,
-- leaves the translation of every other address as it was, and keeps the invariant.
pub map_page-walk :
    (s : Machine) (pd virt phys flags : ℕ)
    → HasTables s pd
    → virt < 2 ^ 32
    → phys % 4096 ≡ 0
    → phys < 2 ^ 32
    → (s.word (slot pd (virt / 2 ^ 22)) % 2 ≡ 1) ⊎ ((alloc_page s.pmm).0 ≢ 0)
    → HasTables (map_page s pd virt phys flags) pd
      × ((v : ℕ)
          → v < 2 ^ 32
          → walk (map_page s pd virt phys flags).word pd v
            ≡ (if v / 4096 == virt / 4096 then some (phys, entry_bits flags) else walk s.word pd v))
map_page-walk s pd virt phys flags h word aligned phys_word supply =
    let t = ensure_table s pd (virt / 2 ^ 22) in
    let n = ensure_table-Ensured s pd (virt / 2 ^ 22) h (omega arith) supply in
    let bits = entry_bits flags in
    let shape = map_page-store s pd virt phys flags n.tables aligned in
    subst
      (λ k.
        HasTables k pd
        × ((v : ℕ)
            → v < 2 ^ 32
            → walk k.word pd v
              ≡ (if v / 4096 == virt / 4096 then some (phys, bits) else walk s.word pd v)))
      (sym shape)
      (
        Tables-written t pd virt phys bits n.tables word aligned phys_word (omega arith)
            (omega arith) n.present,
        λ v vw. elim (Bool-cases (v / 4096 == virt / 4096)) [
          | inl hit ↦ rw hit (
              walk_written_here t pd virt phys bits n.tables word aligned phys_word (omega arith)
                (omega arith) n.present v vw ((==_iff _ _).0 hit))
          | inr miss ↦ rw miss (
              walk_written_else t pd virt phys bits n.tables word aligned phys_word (omega arith)
                (omega arith) n.present v vw (λ e. ground arith)
              ∙ n.walks v vw)
        ],
      )
