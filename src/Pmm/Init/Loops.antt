-- ===== src/Pmm/Init/Loops.antt =====
-- The address loops of memory/pmm.c: they end, they keep what their body keeps, and they reach
-- every page of their range.
use nika_kernel.Prelude.{
  ℕ, zero, suc, ◌+◌, ◌-◌, ◌*◌, ◌/◌, ◌%◌, ◌^◌, ◌≤◌, ◌<◌, ◌≡◌, inl, inr, arith, true, false, some,
  ltb, ◌==◌, Bool-cases, ==_iff, add32,
}
use mathlib.Core.Path.{subst}
use nika_kernel.Prelude.Fallible.{eq_of_some}
use nika_kernel.Pmm.{Pmm, page_size, page_free, mark_used, mark_free}
use nika_kernel.Pmm.Bitmap.{IsBytes, set_bit-IsBytes, clear_bit-IsBytes, page_free-set_bit}
use nika_kernel.Pmm.Init.{page_loop}

module _ (body : Pmm → ℕ → Pmm) where
  -- One round for each page of the range and one more are enough, if the counter cannot wrap.
  pub page_loop_total :
      (fuel addr stop : ℕ) (s : Pmm)
      → stop ≤ 2 ^ 32 - page_size
      → addr < 2 ^ 32
      → stop ≤ addr + fuel * page_size
      → (t : Pmm) × (page_loop (suc fuel) body addr stop s ≡ some t)
  unfolding page_loop
  page_loop_total zero addr stop s top word enough = (s, ground arith)
  page_loop_total (suc fuel) addr stop s top word enough = elim (Bool-cases (ltb addr stop)) [
    | inl more ↦ rw more (
        page_loop_total fuel (add32 addr page_size) stop (body s addr) top (omega arith)
          (ground arith))
    | inr done ↦ (s, rw done)
  ]

  -- What the body keeps, the loop keeps.
  pub page_loop_inv {κ} :
      (P : Pmm → Type κ)
      → ((s : Pmm) (addr : ℕ) → P s → P (body s addr))
      → (fuel addr stop : ℕ) (s : Pmm) {t : Pmm} → P s
      → page_loop fuel body addr stop s ≡ some t
      → P t
  unfolding page_loop
  page_loop_inv P keep zero addr stop s {t} h e = ground arith
  page_loop_inv P keep (suc fuel) addr stop s {t} h e = elim (Bool-cases (ltb addr stop)) [
    | inl more ↦
        page_loop_inv P keep fuel (add32 addr page_size) stop (body s addr) (keep s addr h)
          (rw more at e)
    | inr done ↦ let e' : some s ≡ some t = rw done at e in subst P (eq_of_some e') h
  ]

-- Bytes, a page in use, and the total.
abbrev pub Holds : ℕ → Pmm → Type 0
Holds p s = IsBytes s × (page_free s p ≡ false)

pub mark_used-Holds : (p : ℕ) (s : Pmm) (addr : ℕ) → Holds p s → Holds p (mark_used s addr)
unfolding mark_used
mark_used-Holds p s addr (bytes, used) = (
  set_bit-IsBytes s (addr / page_size) bytes,
  ground (arith, page_free-set_bit s (addr / page_size) p bytes),
)

pub mark_used-IsBytes : (s : Pmm) (addr : ℕ) → IsBytes s → IsBytes (mark_used s addr)
unfolding mark_used
mark_used-IsBytes s addr h = set_bit-IsBytes s (addr / page_size) h

pub mark_free-IsBytes : (s : Pmm) (addr : ℕ) → IsBytes s → IsBytes (mark_free s addr)
unfolding mark_free
mark_free-IsBytes s addr h = clear_bit-IsBytes s (addr / page_size) h

mark_used_here : (s : Pmm) (addr : ℕ) → IsBytes s → Holds (addr / page_size) (mark_used s addr)
unfolding mark_used
mark_used_here s addr h = (
  set_bit-IsBytes s (addr / page_size) h,
  ground (arith, page_free-set_bit s (addr / page_size) (addr / page_size) h),
)

-- The loop with `pmm_mark_used` from an aligned address leaves every page that begins below `stop`
-- in use.
pub page_loop_marks :
    (fuel addr stop p : ℕ) (s : Pmm) {t : Pmm}
    → IsBytes s
    → stop ≤ 2 ^ 32 - page_size
    → addr % page_size ≡ 0
    → addr ≤ p * page_size
    → p * page_size < stop
    → page_loop fuel mark_used addr stop s ≡ some t
    → page_free t p ≡ false
unfolding page_loop
page_loop_marks zero addr stop p s h top aligned low high e = ground arith
page_loop_marks (suc fuel) addr stop p s h top aligned low high e =
    let more : ltb addr stop ≡ true = ground arith in
    let rest = rw more at e in
    elim (Bool-cases (addr / page_size == p)) [
      | inl here ↦
          (page_loop_inv mark_used (Holds p) (mark_used-Holds p) fuel (add32 addr page_size) stop
            (mark_used s addr)
            (subst (λ k. Holds k (mark_used s addr)) ((==_iff _ _).0 here)
              (mark_used_here s addr h))
            rest).1
      | inr later ↦
          page_loop_marks fuel (add32 addr page_size) stop p (mark_used s addr)
            (mark_used-IsBytes s addr h) top (omega arith) (ground arith) high rest
    ]
