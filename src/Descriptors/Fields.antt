-- ===== src/Descriptors/Fields.antt =====
-- The fields of a segment descriptor of core/gdt.c, as the processor puts them together.
use nika_kernel.Prelude.{
  ℕ, zero, suc, ◌+◌, ◌*◌, ◌/◌, ◌%◌, ◌^◌, ◌<◌, ◌≡◌, ◌≢◌, refl, arith, ◌∙◌, bit_and, bit_or, ◌==◌,
  ==_iff, true, u8,
}
use nika_kernel.Prelude.Bits.{bit_and-low, bit_or-split, bit_and-split, zero_laws}
use nika_kernel.Descriptors.{GdtEntry, Gdt, gdt_entry, gdt_set_gate, gdt_init}

abbrev pub segment_base : GdtEntry → ℕ
segment_base e = e.base_low + e.base_middle * 2 ^ 16 + e.base_high * 2 ^ 24

abbrev pub segment_limit : GdtEntry → ℕ
segment_limit e = e.limit_low + e.granularity % 16 * 2 ^ 16

high_nibble : (a : ℕ) → bit_and a 0xf0 ≡ a / 16 % 16 * 16
high_nibble a = omega (arith, bit_and-split 4 a 0xf0, bit_and-low 4 (a / 16), zero_laws (a % 16))

nibbles : (a b : ℕ) → a < 16 → bit_or a (b * 16) ≡ b * 16 + a
nibbles a b lt =
    let low : a / 16 ≡ 0 = omega arith in
    let rest : a % 16 ≡ a = omega arith in
    let up : b * 16 / 16 ≡ b = omega arith in
    let none : b * 16 % 16 ≡ 0 = omega arith in
    bit_or-split 4 a (b * 16) ∙ rw (low, rest, up, none) (omega (arith, zero_laws b, zero_laws a))

granularity_lem :
    (limit gran : ℕ)
    → gran < 256
    → u8 (bit_or (bit_and (limit / 65536) 0x0f) (bit_and gran 0xf0))
      ≡ gran / 16 * 16 + limit / 65536 % 16
granularity_lem limit gran lt =
    let a : bit_and (limit / 65536) 0x0f ≡ limit / 65536 % 16 = bit_and-low 4 (limit / 65536) in
    let b : bit_and gran 0xf0 ≡ gran / 16 * 16 = omega (arith, high_nibble gran) in
    rw (a, b) (omega (arith, nibbles (limit / 65536 % 16) (gran / 16)))

-- What `gdt_set_gate` packs into an entry is what the processor reads out of it: the base, the low
-- 20 bits of the limit, the access byte and the high four bits of the granularity; no other entry
-- changes.
pub gdt_set_gate-fields :
    (s : Gdt) (num base limit access gran : ℕ)
    → base < 2 ^ 32
    → gran < 256
    → let t = gdt_set_gate s num base limit access gran in
      (segment_base (t.gdt num) ≡ base)
      × (segment_limit (t.gdt num) ≡ limit % 2 ^ 20)
      × ((t.gdt num).access ≡ access)
      × ((t.gdt num).granularity / 16 ≡ gran / 16)
      × ((i : ℕ) → num ≢ i → t.gdt i ≡ s.gdt i)
unfolding gdt_set_gate gdt_entry
gdt_set_gate-fields s num base limit access gran word byte =
    let here : (num == num) ≡ true = (==_iff num num).1 refl in
    let g = granularity_lem limit gran byte in
    rw here (
      omega (
        arith,
        bit_and-low 16 base,
        bit_and-low 8 (base / 65536),
        bit_and-low 8 (base / 16777216),
      ),
      omega (arith, bit_and-low 16 limit, g),
      refl,
      omega (arith, g),
      λ i ne. ground arith,
    )

-- After `gdt_init` the null descriptor is empty; the code and data segments of the kernel and of
-- user mode start at 0, have the whole limit in pages, and differ in their access bytes alone; and
-- descriptor 5 is that of the task state segment, which keeps a kernel stack of 0.
pub gdt_init-segments :
    (s : Gdt) (gdt_ptr tss_ptr : ℕ)
    → let t = gdt_init s gdt_ptr tss_ptr in
      (t.gdt 0 ≡ gdt_entry 0 0 0 0)
      × ((i : ℕ)
          → 0 < i
          → i < 5
          → (segment_base (t.gdt i) ≡ 0)
            × (segment_limit (t.gdt i) ≡ 0xfffff)
            × ((t.gdt i).granularity / 16 ≡ 0xc))
      × ((t.gdt 1).access ≡ 0x9a)
      × ((t.gdt 2).access ≡ 0x92)
      × ((t.gdt 3).access ≡ 0xfa)
      × ((t.gdt 4).access ≡ 0xf2)
      × (segment_base (t.gdt 5) ≡ tss_ptr % 2 ^ 32)
      × (segment_limit (t.gdt 5) ≡ 103)
      × (t.tss.esp0 ≡ 0)
unfolding gdt_init gdt_set_gate gdt_entry
gdt_init-segments s gdt_ptr tss_ptr = (
  refl,
  segments,
  refl,
  refl,
  refl,
  refl,
  (gdt_set_gate-fields s 5 (tss_ptr % 2 ^ 32) 103 0x89 0x40 (omega arith) (omega arith)).0,
  refl,
  refl,
)
  where
    segments :
        (i : ℕ)
        → 0 < i
        → i < 5
        → let e = (gdt_init s gdt_ptr tss_ptr).gdt i in
          (segment_base e ≡ 0) × (segment_limit e ≡ 0xfffff) × (e.granularity / 16 ≡ 0xc)
    segments zero lo hi = absurd (omega arith)
    segments (suc zero) lo hi = unfold gdt_init gdt_set_gate gdt_entry in (refl, refl, refl)
    segments (suc (suc zero)) lo hi = unfold gdt_init gdt_set_gate gdt_entry in (refl, refl, refl)
    segments (suc (suc (suc zero))) lo hi =
        unfold gdt_init gdt_set_gate gdt_entry in (refl, refl, refl)
    segments (suc (suc (suc (suc zero)))) lo hi =
        unfold gdt_init gdt_set_gate gdt_entry in (refl, refl, refl)
    segments (suc (suc (suc (suc (suc i))))) lo hi = absurd (omega arith)
