-- ===== src/Pmm/Init/Blocks.antt =====
-- What the loops of `pmm_init` that read the memory map keep: bytes, and the size of the bitmap.
use mathlib.Core.Path.{subst}
use nika_kernel.Prelude.{ℕ, ◌^◌, ◌<◌, ◌≡◌, arith, some, List, [], ◌∷◌}
use nika_kernel.Prelude.Fallible.{>>=-eq-some, eq_of_some}
use nika_kernel.Pmm.{MemoryBlock, Pmm, set_bit, clear_bit, mark_used, mark_free}
use nika_kernel.Pmm.Bitmap.{IsBytes}
use nika_kernel.Pmm.Init.{page_loop, free_blocks, fill_bitmap}
use nika_kernel.Pmm.Init.Loops.{page_loop_inv, mark_free-IsBytes}

pub fill_bitmap-IsBytes : (s : Pmm) → IsBytes s → IsBytes (fill_bitmap s)
unfolding fill_bitmap
fill_bitmap-IsBytes s h i = ground (arith, h i)

pub free_blocks-IsBytes :
    (fuel : ℕ) (bs : List MemoryBlock) (s : Pmm) {t : Pmm}
    → IsBytes s
    → free_blocks fuel bs s ≡ some t
    → IsBytes t
unfolding free_blocks
free_blocks-IsBytes fuel [] s h e = subst IsBytes (eq_of_some e) h
free_blocks-IsBytes fuel (b ∷ bs) s h e =
    let m = >>=-eq-some (page_loop fuel mark_free b.begin b.end s) (free_blocks fuel bs) e in
    free_blocks-IsBytes fuel bs m.0
      (page_loop_inv mark_free IsBytes mark_free-IsBytes fuel b.begin b.end s h m.1) m.2

abbrev pub Sized : ℕ → Pmm → Type 0
Sized n s = s.bitmap_size ≡ n

pub mark_used-Sized : (n : ℕ) (s : Pmm) (addr : ℕ) → Sized n s → Sized n (mark_used s addr)
unfolding mark_used set_bit
mark_used-Sized n s addr h = h

pub mark_free-Sized : (n : ℕ) (s : Pmm) (addr : ℕ) → Sized n s → Sized n (mark_free s addr)
unfolding mark_free clear_bit
mark_free-Sized n s addr h = h

pub free_blocks-Sized :
    (n fuel : ℕ) (bs : List MemoryBlock) (s : Pmm) {t : Pmm}
    → Sized n s
    → free_blocks fuel bs s ≡ some t
    → Sized n t
unfolding free_blocks
free_blocks-Sized n fuel [] s h e = subst (Sized n) (eq_of_some e) h
free_blocks-Sized n fuel (b ∷ bs) s h e =
    let m = >>=-eq-some (page_loop fuel mark_free b.begin b.end s) (free_blocks fuel bs) e in
    free_blocks-Sized n fuel bs m.0
      (page_loop_inv mark_free (Sized n) (mark_free-Sized n) fuel b.begin b.end s h m.1) m.2

pub fill_bitmap_small : (s : Pmm) → (fill_bitmap s).bitmap_size < 2 ^ 29
unfolding fill_bitmap
fill_bitmap_small s = omega arith
