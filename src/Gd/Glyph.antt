-- ===== src/Gd/Glyph.antt =====
-- drivers/gd.c: the pixels that `draw_char` changes.
use nika_kernel.Prelude.{
  ℕ, zero, suc, ◌+◌, ◌-◌, ◌^◌, ◌≤◌, ◌≡◌, inl, inr, refl, arith, ap, ==_iff, ◌∙◌, Bool, true, false,
  not, ◌&&◌, ◌||◌, ◌==◌, ltb, add32, if◌then◌else◌, Bool-cases, bit_and, u8, ◌<<<◌,
}
use nika_kernel.Gd.{Screen, put_pixel}
use nika_kernel.Gd.Text.{Font, draw_bits, draw_glyph, draw_char}
use nika_kernel.Gd.Place.{IsFramebuffer}
use nika_kernel.Gd.Draws.{
  Draws, nowhere, Draws-nothing, IsFramebuffer-shape, Draws-join, Draws-same, put_pixel-Draws,
}
use nika_kernel.Gd.Rect.{within}

-- Whether a column of a row of a glyph is lit: the lowest bit is the leftmost column.
abbrev pub lit : ℕ → ℕ → Bool
lit bits col = not (bit_and bits (1 <<< col) == 0)

-- One more number in front of a range, with what holds at each.
cell_step :
    (a x n k b : ℕ) (m : Bool) (g : ℕ → Bool)
    → a ≡ x + b
    → ((within (a + 1) n k && m && g (k - x)) || ((a == k) && m && g b))
      ≡ (within a (suc n) k && m && g (k - x))
cell_step a x n k b m g at = elim (Bool-cases (a == k)) [
  | inl here ↦
      let equal : a ≡ k = (==_iff a k).0 here in
      let same : g b ≡ g (k - x) = ap g (omega arith) in ground (arith, same)
  | inr other ↦ ground arith
]

and_swap : (p q r : Bool) → (p && q && r) ≡ (q && p && r)
and_swap true true r = refl
and_swap true false r = refl
and_swap false true r = refl
and_swap false false r = refl

-- One column of a row.
draw_bit-Draws :
    (s : Screen) (x y bits col c : ℕ)
    → IsFramebuffer s
    → Draws s
        (if bit_and bits (1 <<< col) == 0 then s else put_pixel s x y c)
        (λ k l. (x == k) && (y == l) && lit bits col)
        c
draw_bit-Draws s x y bits col c f = elim (Bool-cases (bit_and bits (1 <<< col) == 0)) [
  | inl dark ↦ rw dark (Draws-same s s nowhere _ c (λ k l _ _. ground arith) (Draws-nothing s c))
  | inr light ↦
      rw light (Draws-same s _ _ _ c (λ k l _ _. ground arith) (put_pixel-Draws s x y c f))
]

draw_bits-Draws :
    (more col : ℕ) (s : Screen) (x y bits c : ℕ)
    → IsFramebuffer s
    → x + col + more ≤ 2 ^ 32
    → Draws s
        (draw_bits more col s x y bits c)
        (λ k l. within (x + col) more k && (y == l) && lit bits (k - x))
        c
unfolding draw_bits
draw_bits-Draws zero col s x y bits c f room =
    Draws-same s s nowhere _ c (λ k l _ _. ground arith) (Draws-nothing s c)
draw_bits-Draws (suc more) col s x y bits c f room =
    let d = draw_bit-Draws s (add32 x col) y bits col c f in
    let onward =
      draw_bits-Draws more (col + 1) _ x y bits c (IsFramebuffer-shape s _ f d.shape)
        (omega arith) in
    let exact : add32 x col ≡ x + col = omega arith in
    let at : x + col - x ≡ col = omega arith in
    let first : (x + (col + 1)) ≡ x + col + 1 = omega arith in
    Draws-same s _ _ (λ k l. within (x + col) (suc more) k && (y == l) && lit bits (k - x)) c
      (λ k l _ _. rw (exact, first) (cell_step (x + col) x more k col (y == l) (lit bits) refl))
      (Draws-join s _ _ _ _ c d onward)

draw_glyph-Draws :
    (more row : ℕ) (s : Screen) (x y : ℕ) (glyph : ℕ → ℕ) (c : ℕ)
    → IsFramebuffer s
    → x + 8 ≤ 2 ^ 32
    → y + row + more ≤ 2 ^ 32
    → Draws s
        (draw_glyph more row s x y glyph c)
        (λ k l. within (y + row) more l && within x 8 k && lit (u8 (glyph (l - y))) (k - x))
        c
unfolding draw_glyph
draw_glyph-Draws zero row s x y glyph c f wide room =
    Draws-same s s nowhere _ c (λ k l _ _. ground arith) (Draws-nothing s c)
draw_glyph-Draws (suc more) row s x y glyph c f wide room =
    let d = draw_bits-Draws 8 0 s x (add32 y row) (u8 (glyph row)) c f (omega arith) in
    let onward =
      draw_glyph-Draws more (row + 1) _ x y glyph c (IsFramebuffer-shape s _ f d.shape) wide
        (omega arith) in
    let exact : add32 y row ≡ y + row = omega arith in
    let first : y + (row + 1) ≡ y + row + 1 = omega arith in
    let left : x + 0 ≡ x = omega arith in
    Draws-same s _ _ _ c
      (λ k l _ _.
        rw (exact, first, left)
          (ap
              (λ (b : Bool).
                (within (y + row + 1) more l && within x 8 k && lit (u8 (glyph (l - y))) (k - x))
                || b)
              (and_swap (within x 8 k) (y + row == l) (lit (u8 (glyph row)) (k - x)))
            ∙ cell_step (y + row) y more l row (within x 8 k) (λ r. lit (u8 (glyph r)) (k - x))
                refl))
      (Draws-join s _ _ _ _ c d onward)

-- On a framebuffer, where the cell's corners do not exceed 32 bits, a character up to 127 lights
-- the pixels of its glyph in the 8 by 8 cell at its place, the lowest bit of a row of the font on
-- the left, and changes no other pixel, no memory outside the framebuffer and no other variable; a
-- character above 127 changes nothing.
pub draw_char-Draws :
    (font : Font) (s : Screen) (x y ch c : ℕ)
    → IsFramebuffer s
    → x + 8 ≤ 2 ^ 32
    → y + 8 ≤ 2 ^ 32
    → Draws s
        (draw_char font s x y ch c)
        (λ k l. ltb ch 128 && within y 8 l && within x 8 k && lit (u8 (font ch (l - y))) (k - x))
        c
unfolding draw_char
draw_char-Draws font s x y ch c f wide high = elim (Bool-cases (ltb 127 ch)) [
  | inl above ↦ rw above (Draws-same s s nowhere _ c (λ k l _ _. ground arith) (Draws-nothing s c))
  | inr ascii ↦
      let plain : ltb ch 128 ≡ true = ground arith in
      let top : y + 0 ≡ y = omega arith in
      rw ascii (
        Draws-same s _ _ _ c (λ k l _ _. rw (plain, top))
          (draw_glyph-Draws 8 0 s x y (font ch) c f wide (omega arith)))
]
