-- ===== src/Gd/Scroll.antt =====
-- drivers/gd.c: `scroll_screen` takes the pitch, which is in bytes, for a number of pixels.
use native.Mathlib.Nat.{le_refl, mul-le-mul_left, mul-le-mul_right, mul_assoc, mul_comm}
use nika_kernel.Prelude.{
  ℕ, ◌+◌, ◌-◌, ◌*◌, ◌/◌, ◌%◌, ◌^◌, ◌≤◌, ◌<◌, ◌≡◌, arith, ap, inl, inr, ◌∙◌, sym, true, ◌&&◌, leb,
  ltb, sub32,
}
use nika_kernel.Gd.{Screen, bytes_per_line, shifted, scroll_screen}
use nika_kernel.Gd.Place.{IsFramebuffer, depth_bytes}
use nika_kernel.Gd.Rect.{draw_rect-Draws}

-- All but eight lines of a picture are more than all lines of half the length or less.
lines_beyond : (h p n : ℕ) → 16 < h → 0 < p → 2 ≤ n → h * p < (h - 8) * (p * n)
lines_beyond h p n high some_bytes two =
    let longer : p * 2 ≤ p * n = mul-le-mul_left p two in
    let all : (h - 8) * (p * 2) ≤ (h - 8) * (p * n) = mul-le-mul_left (h - 8) longer in
    let turned : (h - 8) * (p * 2) ≡ (h - 8) * 2 * p =
      ap (λ (t : ℕ). (h - 8) * t) (mul_comm p 2) ∙ sym (mul_assoc (h - 8) 2 p) in
    let more : (h + 1) * p ≤ (h - 8) * 2 * p = mul-le-mul_right p (omega arith) in omega arith

-- What `memmove` puts behind the end of the picture.
shifted-past :
    (s : Screen)
    → 16 < s.height
    → 0 < s.pitch
    → 2 ≤ depth_bytes s
    → s.height * (s.pitch * depth_bytes s) < 2 ^ 32
    → shifted s 8 (s.addr + s.height * s.pitch)
      ≡ s.byte (s.addr + s.height * s.pitch + 8 * (s.pitch * depth_bytes s))
shifted-past s high some_bytes two fits =
    let line = s.pitch * depth_bytes s in
    let beyond = lines_beyond s.height s.pitch (depth_bytes s) high some_bytes two in
    let some_line : s.pitch * 1 ≤ line = mul-le-mul_left s.pitch (omega arith) in
    let one : s.height * 1 ≤ s.height * line = mul-le-mul_left s.height (omega arith) in
    let eight : 8 * line ≤ s.height * line = mul-le-mul_right line (omega arith) in
    let rest : (s.height - 8) * line ≤ s.height * line = mul-le-mul_right line (omega arith) in
    let exact : bytes_per_line s ≡ line = omega arith in
    let lines : sub32 s.height 8 ≡ s.height - 8 = omega arith in
    let amount : (s.height - 8) * line % 2 ^ 32 ≡ (s.height - 8) * line = omega arith in
    let inside : leb s.addr (s.addr + s.height * s.pitch)
          && ltb (s.addr + s.height * s.pitch) (s.addr + (s.height - 8) * line)
        ≡ true =
      ground arith in
    rw (exact, lines, amount, inside) (ap s.byte (omega arith))

deep : (s : Screen) → IsFramebuffer s → 2 ≤ depth_bytes s
deep s f = elim f.depth [
  | inl d ↦ omega (arith, ap (λ (b : ℕ). b / 8) d)
  | inr (inl d) ↦ omega (arith, ap (λ (b : ℕ). b / 8) d)
  | inr (inr d) ↦ omega (arith, ap (λ (b : ℕ). b / 8) d)
]

-- Scrolling by a row of text moves by 8 lines for each byte of a pixel, and reaches past the end of
-- the framebuffer: on a framebuffer of more than 16 lines, whose bytes times those of a pixel are
-- below 2^32, the byte behind its end takes the value of the byte that many lines further on.
pub scroll_screen-overrun :
    (s : Screen)
    → IsFramebuffer s
    → s.width < 2 ^ 32
    → 16 < s.height
    → 0 < s.pitch
    → s.height * (s.pitch * depth_bytes s) < 2 ^ 32
    → (scroll_screen s 8).byte (s.addr + s.height * s.pitch)
      ≡ s.byte (s.addr + s.height * s.pitch + 8 * (s.pitch * depth_bytes s))
unfolding scroll_screen
scroll_screen-overrun s f wide high some_bytes fits =
    let two : 2 ≤ depth_bytes s = deep s f in
    let some_line : s.pitch * 1 ≤ s.pitch * depth_bytes s = mul-le-mul_left s.pitch (omega arith) in
    let one : s.height * 1 ≤ s.height * (s.pitch * depth_bytes s) =
      mul-le-mul_left s.height (omega arith) in
    let frame : IsFramebuffer (record s { byte = shifted s 8 }) = record {
      ready = f.ready;
      depth = f.depth;
      room = f.room;
      aligned = f.aligned;
      fits = f.fits;
    } in
    let d =
      draw_rect-Draws (record s { byte = shifted s 8 }) 0 (sub32 s.height 8) s.width 8 0 frame
        (omega arith) (omega arith) in
    d.outside (s.addr + s.height * s.pitch) (inr (le_refl _))
    ∙ shifted-past s high some_bytes two fits
