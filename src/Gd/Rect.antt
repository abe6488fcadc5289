-- ===== src/Gd/Rect.antt =====
-- drivers/gd.c: the pixels that `draw_rect`, `clear` and `draw_char` change.
use nika_kernel.Prelude.{
  ℕ, zero, suc, ◌+◌, ◌^◌, ◌≤◌, ◌<◌, ◌≡◌, arith, ap, sym, Bool, true, false, ◌&&◌, ◌==◌,
  ==-false_of_ne, ltb, leb, add32,
}
use mathlib.Core.Path.{subst}
use nika_kernel.Gd.{Screen, put_pixel, draw_row, draw_rows, draw_rect, clear}
use nika_kernel.Gd.Place.{IsFramebuffer}
use nika_kernel.Gd.Draws.{
  Draws, nowhere, Draws-nothing, IsFramebuffer-shape, Draws-join, Draws-same, put_pixel-Draws,
}

-- Whether `k` is one of the `n` numbers from `a` on.
abbrev pub within : ℕ → ℕ → ℕ → Bool
within a n k = leb a k && ltb k (a + n)

draw_row-Draws :
    (more j : ℕ) (s : Screen) (x y c : ℕ)
    → IsFramebuffer s
    → x + j + more ≤ 2 ^ 32
    → Draws s (draw_row more j s x y c) (λ k l. within (x + j) more k && (y == l)) c
unfolding draw_row
draw_row-Draws zero j s x y c f room =
    Draws-same s s nowhere (λ k l. within (x + j) zero k && (y == l)) c
      (λ k l col row. ground arith) (Draws-nothing s c)
draw_row-Draws (suc more) j s x y c f room =
    let t = put_pixel s (add32 x j) y c in
    let d = put_pixel-Draws s (add32 x j) y c f in
    let onward =
      draw_row-Draws more (j + 1) t x y c (IsFramebuffer-shape s t f d.shape) (omega arith) in
    let exact : add32 x j ≡ x + j = omega arith in
    Draws-same s _ _ (λ k l. within (x + j) (suc more) k && (y == l)) c
      (λ k l col row. rw exact (ground arith)) (Draws-join s t _ _ _ c d onward)

draw_rows-Draws :
    (more i : ℕ) (s : Screen) (x y w c : ℕ)
    → IsFramebuffer s
    → x + w ≤ 2 ^ 32
    → y + i + more ≤ 2 ^ 32
    → Draws s (draw_rows more i s x y w c) (λ k l. within x w k && within (y + i) more l) c
unfolding draw_rows
draw_rows-Draws zero i s x y w c f wide room =
    Draws-same s s nowhere (λ k l. within x w k && within (y + i) zero l) c
      (λ k l col row. ground arith) (Draws-nothing s c)
draw_rows-Draws (suc more) i s x y w c f wide room =
    let t = draw_row w 0 s x (add32 y i) c in
    let d = draw_row-Draws w 0 s x (add32 y i) c f (omega arith) in
    let onward =
      draw_rows-Draws more (i + 1) t x y w c (IsFramebuffer-shape s t f d.shape) wide
        (omega arith) in
    let exact : add32 y i ≡ y + i = omega arith in
    Draws-same s _ _ (λ k l. within x w k && within (y + i) (suc more) l) c
      (λ k l col row. rw exact (ground arith)) (Draws-join s t _ _ _ c d onward)

-- On a framebuffer of 32, 24 or 16 bits per pixel, `draw_rect` gives the pixels of the rectangle the
-- colour, cut to its 8, 8 and 8 or 5, 6 and 5 bits, when no corner exceeds 32 bits: pixels outside the
-- rectangle, memory outside the framebuffer and the other variables stay as they are, also where the
-- rectangle is larger than the screen.
pub draw_rect-Draws :
    (s : Screen) (x y w h c : ℕ)
    → IsFramebuffer s
    → x + w ≤ 2 ^ 32
    → y + h ≤ 2 ^ 32
    → Draws s (draw_rect s x y w h c) (λ k l. within x w k && within y h l) c
unfolding draw_rect
draw_rect-Draws s x y w h c f wide high =
    let ready : (s.gd_ok == 0) ≡ false = ==-false_of_ne s.gd_ok 0 f.ready in
    let code : draw_rect s x y w h c ≡ draw_rows h 0 s x y w c = rw ready in
    subst (λ t. Draws s t (λ k l. within x w k && within y h l) c) (sym code)
      (Draws-same s _ _ (λ k l. within x w k && within y h l) c
        (λ k l col row. ap (λ (a : ℕ). within x w k && within a h l) (omega arith))
        (draw_rows-Draws h 0 s x y w c f wide (omega arith)))

-- `clear` gives every pixel of a framebuffer the colour.
pub clear_lem :
    (s : Screen) (c : ℕ)
    → IsFramebuffer s
    → s.width < 2 ^ 32
    → s.height < 2 ^ 32
    → Draws s (clear s c) (λ k l. true) c
unfolding clear
clear_lem s c f wide high =
    let ready : (s.gd_ok == 0) ≡ false = ==-false_of_ne s.gd_ok 0 f.ready in
    let code : clear s c ≡ draw_rect s 0 0 s.width s.height c = rw ready in
    subst (λ t. Draws s t (λ k l. true) c) (sym code)
      (Draws-same s _ _ (λ k l. true) c (λ k l col row. ground arith)
        (draw_rect-Draws s 0 0 s.width s.height c f (omega arith) (omega arith)))
