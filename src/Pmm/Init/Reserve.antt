-- ===== src/Pmm/Init/Reserve.antt =====
-- What `pmm_init` of memory/pmm.c guarantees to the code that allocates pages afterwards.
use mathlib.Core.Path.{subst}
use nika_kernel.Prelude.{
  ℕ, zero, suc, ◌+◌, ◌-◌, ◌*◌, ◌/◌, ◌%◌, ◌^◌, ◌≤◌, ◌<◌, ◌≡◌, ◌⊎◌, inl, inr, refl, arith, false,
  some, add32, sym, ap,
}
use nika_kernel.Prelude.Int.{ℤ, pos}
use nika_kernel.Prelude.Fallible.{>>=-eq-some, eq_of_some}
use nika_kernel.Multiboot.{MultibootInfo, MmapEntry}
use nika_kernel.Pmm.{Pmm, page_size, page_free, set_bit, mark_used, alloc_page}
use nika_kernel.Pmm.Alloc.{
  Outcome, alloc_page-Outcome, alloc_page-used, alloc_page-total_pages, Outcome-IsBytes, allocs,
}
use nika_kernel.Pmm.Bitmap.{IsBytes, set_bit-IsBytes, page_free-set_bit}
use nika_kernel.Pmm.Init.{get_memmap, page_loop, free_blocks, fill_bitmap, pmm_init, bitmap_start}
use nika_kernel.Pmm.Init.Blocks.{
  fill_bitmap-IsBytes, free_blocks-IsBytes, Sized, mark_used-Sized, free_blocks-Sized,
  fill_bitmap_small,
}
use nika_kernel.Pmm.Init.Loops.{
  page_loop_inv, page_loop_marks, Holds, mark_used-Holds, mark_used-IsBytes,
}

-- The stages of a run of `pmm_init` that returns.
record Stages (fuel ks ke : ℕ) (entry_at : ℕ → MmapEntry) (mbd : MultibootInfo) (magic : ℕ)
    (s : Pmm) (out : ℤ × Pmm) : Type 0 where
  code : ℤ
  mapped : Pmm
  freed : Pmm
  reserved : Pmm
  last : Pmm
  read : get_memmap fuel entry_at mbd magic s ≡ some (code, mapped)
  free : free_blocks fuel mapped.mem_map (fill_bitmap mapped) ≡ some freed
  reserve : page_loop fuel mark_used ks ke freed ≡ some reserved
  cover :
      page_loop fuel mark_used bitmap_start (add32 bitmap_start reserved.bitmap_size) reserved
      ≡ some last
  result : out ≡ (pos 0, set_bit last (0xb8000 / page_size))

pmm_init-Stages :
    (fuel ks ke : ℕ) (entry_at : ℕ → MmapEntry) (mbd : MultibootInfo) (magic : ℕ) (s : Pmm)
    {out : ℤ × Pmm}
    → pmm_init fuel ks ke entry_at mbd magic s ≡ some out
    → Stages fuel ks ke entry_at mbd magic s out
unfolding pmm_init
pmm_init-Stages fuel ks ke entry_at mbd magic s e =
    let a = >>=-eq-some (get_memmap fuel entry_at mbd magic s) _ e in
    let b = >>=-eq-some (free_blocks fuel a.0.1.mem_map (fill_bitmap a.0.1)) _ a.2 in
    let c = >>=-eq-some (page_loop fuel mark_used ks ke b.0) _ b.2 in
    let d =
      >>=-eq-some (page_loop fuel mark_used bitmap_start (add32 bitmap_start c.0.bitmap_size) c.0) _
        c.2 in
    record {
      code = a.0.0;
      mapped = a.0.1;
      freed = b.0;
      reserved = c.0;
      last = d.0;
      read = a.1;
      free = b.1;
      reserve = c.1;
      cover = d.1;
      result = sym (eq_of_some d.2);
    }

bitmap-get_memmap :
    (fuel : ℕ) (entry_at : ℕ → MmapEntry) (mbd : MultibootInfo) (magic : ℕ) (s : Pmm)
    {out : ℤ × Pmm}
    → get_memmap fuel entry_at mbd magic s ≡ some out
    → out.1.bitmap ≡ s.bitmap
unfolding get_memmap
bitmap-get_memmap fuel entry_at mbd magic s e = ground arith

-- The pages that `pmm_init` must keep from the allocator: those of the kernel's image, those of
-- the bitmap, and the page of the VGA text buffer.
pub record IsReserved (ks ke : ℕ) (t : Pmm) : Type 0 where
  pub bytes : IsBytes t
  pub kernel : (p : ℕ) → ks ≤ p * page_size → p * page_size < ke → page_free t p ≡ false
  pub bitmap :
      (p : ℕ)
      → bitmap_start ≤ p * page_size
      → p * page_size < bitmap_start + t.bitmap_size
      → page_free t p ≡ false
  pub vga : page_free t 0xb8 ≡ false

-- `pmm_init` over the stages of its run.
module _ {fuel ks ke : ℕ} {entry_at : ℕ → MmapEntry} {mbd : MultibootInfo} {magic : ℕ} {s : Pmm}
    {out : ℤ × Pmm} (g : Stages fuel ks ke entry_at mbd magic s out) (h : IsBytes s) where
  freed-IsBytes : IsBytes g.freed
  freed-IsBytes =
      free_blocks-IsBytes fuel g.mapped.mem_map (fill_bitmap g.mapped)
        (fill_bitmap-IsBytes g.mapped
          (λ i. rw (bitmap-get_memmap fuel entry_at mbd magic s g.read) (h i)))
        g.free

  reserved-IsBytes : IsBytes g.reserved
  reserved-IsBytes =
      page_loop_inv mark_used IsBytes mark_used-IsBytes fuel ks ke g.freed freed-IsBytes g.reserve

  last-IsBytes : IsBytes g.last
  last-IsBytes =
      page_loop_inv mark_used IsBytes mark_used-IsBytes fuel bitmap_start
        (add32 bitmap_start g.reserved.bitmap_size) g.reserved reserved-IsBytes g.cover

  reserved_small : g.reserved.bitmap_size < 2 ^ 29
  reserved_small =
      let n = (fill_bitmap g.mapped).bitmap_size in
      let e =
        page_loop_inv mark_used (Sized n) (mark_used-Sized n) fuel ks ke g.freed
          (free_blocks-Sized n fuel g.mapped.mem_map (fill_bitmap g.mapped) refl g.free)
          g.reserve in
      omega (arith, fill_bitmap_small g.mapped)

  last_sized : g.last.bitmap_size ≡ g.reserved.bitmap_size
  last_sized =
      page_loop_inv mark_used (Sized g.reserved.bitmap_size)
        (mark_used-Sized g.reserved.bitmap_size) fuel bitmap_start
        (add32 bitmap_start g.reserved.bitmap_size) g.reserved refl g.cover

  kernel_kept :
      ks % page_size ≡ 0
      → ke ≤ 2 ^ 32 - page_size
      → (p : ℕ) → ks ≤ p * page_size
      → p * page_size < ke
      → page_free g.last p ≡ false
  kernel_kept aligned top p low high =
      (page_loop_inv mark_used (Holds p) (mark_used-Holds p) fuel bitmap_start
        (add32 bitmap_start g.reserved.bitmap_size) g.reserved
        (
          reserved-IsBytes,
          page_loop_marks fuel ks ke p g.freed freed-IsBytes top aligned low high g.reserve,
        )
        g.cover).1

  bitmap_kept :
      (p : ℕ)
      → bitmap_start ≤ p * page_size
      → p * page_size < bitmap_start + g.reserved.bitmap_size
      → page_free g.last p ≡ false
  bitmap_kept p low high =
      let small = reserved_small in
      page_loop_marks fuel bitmap_start (add32 bitmap_start g.reserved.bitmap_size) p g.reserved
        reserved-IsBytes (omega arith) refl low (omega arith) g.cover

set_bit_keeps :
    (s : Pmm) (p q : ℕ) → IsBytes s → page_free s q ≡ false → page_free (set_bit s p) q ≡ false
set_bit_keeps s p q h used = ground (arith, page_free-set_bit s p q h)

bitmap_size-set_bit : (s : Pmm) (p : ℕ) → (set_bit s p).bitmap_size ≡ s.bitmap_size
unfolding set_bit
bitmap_size-set_bit s p = refl

-- A run of `pmm_init` that returns, over memory of bytes and a kernel image that starts at a page
-- boundary and ends below the last page, returns 0 and leaves every page of the kernel's image,
-- every page of the bitmap and the VGA page in use, over a bitmap of bytes.
pub pmm_init-IsReserved :
    (fuel ks ke : ℕ) (entry_at : ℕ → MmapEntry) (mbd : MultibootInfo) (magic : ℕ) (s t : Pmm)
    (code : ℤ)
    → IsBytes s
    → ks % page_size ≡ 0
    → ke ≤ 2 ^ 32 - page_size
    → pmm_init fuel ks ke entry_at mbd magic s ≡ some (code, t)
    → (code ≡ pos 0) × IsReserved ks ke t
pmm_init-IsReserved fuel ks ke entry_at mbd magic s t code h aligned top e =
    let g = pmm_init-Stages fuel ks ke entry_at mbd magic s e in
    let bytes = last-IsBytes g h in
    let last : Pmm = set_bit g.last (0xb8000 / page_size) in
    let kept : IsReserved ks ke last = record {
      bytes = set_bit-IsBytes g.last (0xb8000 / page_size) bytes;
      kernel =
          λ p low high. set_bit_keeps g.last _ p bytes (kernel_kept g h aligned top p low high);
      bitmap = λ p low high. set_bit_keeps g.last _ p bytes (
          bitmap_kept g h p low
            (omega (arith, last_sized g h, bitmap_size-set_bit g.last (0xb8000 / page_size))));
      vga = ground (arith, page_free-set_bit g.last 0xb8 0xb8 bytes);
    } in
    (
      ap (λ (x : ℤ × Pmm). x.0) g.result,
      subst (IsReserved ks ke) (sym (ap (λ (x : ℤ × Pmm). x.1) g.result)) kept,
    )

outside_kernel :
    {ks ke : ℕ} {t : Pmm} {out : ℕ × Pmm}
    → ((p : ℕ) → ks ≤ p * page_size → p * page_size < ke → page_free t p ≡ false)
    → t.total_pages ≤ 2 ^ 20
    → Outcome t 0 t.total_pages out
    → (out.0 ≡ 0) ⊎ (out.0 < ks) ⊎ (ke ≤ out.0)
outside_kernel kept bound (inl (p, f)) = ground (arith, kept p, f.was_free, f.below, f.address)
outside_kernel kept bound (inr f) = inl (ap (λ (x : ℕ × Pmm). x.0) f.unchanged)

allocs_outside :
    (n ks ke : ℕ) (t : Pmm)
    → ((p : ℕ) → ks ≤ p * page_size → p * page_size < ke → page_free t p ≡ false)
    → t.total_pages ≤ 2 ^ 20
    → IsBytes t
    → let a = (alloc_page (allocs n t)).0 in (a ≡ 0) ⊎ (a < ks) ⊎ (ke ≤ a)
allocs_outside zero ks ke t kept bound h = outside_kernel kept bound (alloc_page-Outcome t h)
allocs_outside (suc n) ks ke t kept bound h =
    let o = alloc_page-Outcome t h in
    allocs_outside n ks ke (alloc_page t).1 (λ p low high. alloc_page-used t p h (kept p low high))
      (subst (λ k. k ≤ 2 ^ 20) (sym (alloc_page-total_pages t h)) bound) (Outcome-IsBytes h o)

-- After a `pmm_init` that returns, from a bitmap of bytes, with the image's start on a page border,
-- its end a page below 2^32 at most and at most 2^20 pages found, no page of the kernel's image is
-- ever allocated: whatever the number of calls of `pmm_alloc_page` before it, a call returns NULL or an
-- address outside the image.
pub alloc_page_outside_kernel :
    (fuel ks ke : ℕ) (entry_at : ℕ → MmapEntry) (mbd : MultibootInfo) (magic : ℕ) (s t : Pmm)
    (code : ℤ) (n : ℕ)
    → IsBytes s
    → ks % page_size ≡ 0
    → ke ≤ 2 ^ 32 - page_size
    → pmm_init fuel ks ke entry_at mbd magic s ≡ some (code, t)
    → t.total_pages ≤ 2 ^ 20
    → let a = (alloc_page (allocs n t)).0 in (a ≡ 0) ⊎ (a < ks) ⊎ (ke ≤ a)
alloc_page_outside_kernel fuel ks ke entry_at mbd magic s t code n h aligned top e bound =
    let r = (pmm_init-IsReserved fuel ks ke entry_at mbd magic s t code h aligned top e).1 in
    allocs_outside n ks ke t r.kernel bound r.bytes
