-- ===== src/Paging/Entry.antt =====
-- The bit fields of the entries that memory/paging.c reads and writes, as arithmetic.
use nika_kernel.Prelude.{
  ℕ, ◌+◌, ◌*◌, ◌/◌, ◌%◌, ◌^◌, ◌<◌, ◌≡◌, ap, ap₂, ◌∙◌, arith, bit_and, bit_or, ◌==◌,
}
use nika_kernel.Prelude.Bits.{bit_or-split, bit_or-halves, bit_and-split, bit_and-low, zero_laws}
use nika_kernel.Paging.{frame_of, is_present, user_entry, page_entry}

pub frame_of_lem : (e : ℕ) → e < 2 ^ 32 → frame_of e ≡ e / 4096 * 4096
frame_of_lem e h =
    omega (arith, bit_and-split 12 e 0xfffff000, bit_and-low 20 (e / 4096), zero_laws (e % 4096))

pub bit_and_one : (e : ℕ) → bit_and e 1 ≡ e % 2
bit_and_one e = bit_and-low 1 e

pub is_present_lem : (e : ℕ) → is_present e ≡ (e % 2 == 1)
is_present_lem e = ground (arith, bit_and_one e)

-- Low bits are put into an aligned word without touching its high part.
bit_or-aligned :
    (base x y : ℕ) → base % 4096 ≡ 0 → x < 4096 → y < 4096 → bit_or (base + x) y ≡ base + bit_or x y
bit_or-aligned base x y h hx hy =
    let high : bit_or ((base + x) / 4096) (y / 4096) ≡ base / 4096 =
      ap₂ bit_or (omega arith) (omega arith) ∙ (zero_laws (base / 4096)).0 in
    let low : bit_or ((base + x) % 4096) (y % 4096) ≡ bit_or x y =
      ap₂ bit_or (omega arith) (omega arith) in
    omega (arith, bit_or-split 12 (base + x) y)

bit_or_one : (x : ℕ) → bit_or x 1 ≡ x / 2 * 2 + 1
bit_or_one x = omega (arith, bit_or-halves x 1, zero_laws (x / 2))

pub user_entry_lem : (page : ℕ) → page % 4096 ≡ 0 → user_entry page ≡ page + 7
unfolding user_entry
user_entry_lem page h =
    ap (λ (t : ℕ). bit_or (bit_or t 2) 4)
      (ap (λ (t : ℕ). bit_or t 1) {y = page + 0} (omega arith)
        ∙ bit_or-aligned page 0 1 h (omega arith) (omega arith))
    ∙ ap (λ (t : ℕ). bit_or t 4) (bit_or-aligned page 1 2 h (omega arith) (omega arith))
    ∙ bit_or-aligned page 3 4 h (omega arith) (omega arith)

pub page_entry_lem :
    (phys flags : ℕ) → phys % 4096 ≡ 0 → page_entry phys flags ≡ phys + (flags % 4096 / 2 * 2 + 1)
unfolding page_entry
page_entry_lem phys flags h =
    let low = bit_and-low 12 flags in
    let first : bit_or phys (bit_and flags 0xfff) ≡ phys + flags % 4096 =
      ap₂ bit_or {y = phys + 0} (omega arith) low
      ∙ bit_or-aligned phys 0 (flags % 4096) h (omega arith) (omega arith)
      ∙ ap (λ (t : ℕ). phys + t) (zero_laws (flags % 4096)).1 in
    ap (λ (t : ℕ). bit_or t 1) first
    ∙ bit_or-aligned phys (flags % 4096) 1 h (omega arith) (omega arith)
    ∙ ap (λ (t : ℕ). phys + t) (bit_or_one (flags % 4096))
