-- ===== src/Gd/Edges.antt =====
-- drivers/gd.c: where the cursor goes at the edges of the screen in `gdl_print_color` and `kDebug`.
use nika_kernel.Prelude.{
  ℕ, ◌+◌, ◌≤◌, ◌<◌, ◌≡◌, ◌≢◌, arith, ap, ◌∙◌, true, false, ◌==◌, ==-false_of_ne, ltb, add32,
}
use nika_kernel.Gd.{Screen}
use nika_kernel.Gd.Text.{Font, gdl_putchar, print_char, debug_char}
use nika_kernel.Gd.Cursor.{IsReady, moved, draw_char-moved, gdl_putchar-moved}

ltb-false : (a b : ℕ) → a ≤ b → ltb b a ≡ false
ltb-false a b le = ground arith

-- In the last cell of the screen `gdl_print_color` does not scroll behind a character: its cursor
-- moves below the last row, where the next character has no room.
pub print_char-last :
    (font : Font) (s : Screen) (c color : ℕ)
    → IsReady s
    → c ≢ b'\n'
    → s.width < s.x + 16
    → s.height < s.y + 16
    → ((print_char font s c color).x ≡ 0) × (s.height < (print_char font s c color).y + 8)
unfolding print_char
print_char-last font s c color r text last bottom =
    let (drawn, drew) = draw_char-moved font s c color r in
    let exact : add32 s.x 8 ≡ s.x + 8 = omega arith in
    let exact' : add32 (s.x + 8) 8 ≡ s.x + 16 = omega arith in
    let below : add32 s.y 8 ≡ s.y + 8 = omega arith in
    let full : ltb s.width (s.x + 16) ≡ true = ground arith in
    let done : print_char font s c color ≡ moved s drawn 0 (s.y + 8) =
      rw (==-false_of_ne c 10 text, drew, exact, exact', full, below) in
    (ap (λ (t : Screen). t.x) done, omega (arith, ap (λ (t : Screen). t.y) done))

-- A character of the format of `kDebug` moves the cursor by two cells where the row has room for them.
pub debug_char-gap :
    (font : Font) (s : Screen) (c : ℕ)
    → IsReady s
    → c ≢ b'\n'
    → s.x + 24 ≤ s.width
    → (debug_char font s c).x ≡ s.x + 16
unfolding debug_char
debug_char-gap font s c r text room =
    let (b, done) = gdl_putchar-moved font s c r in
    let char : (c == b'\n') ≡ false = ==-false_of_ne c 10 text in
    let near : ltb s.width (s.x + 16) ≡ false = ltb-false (s.x + 16) s.width (omega arith) in
    let kept : gdl_putchar font s c ≡ moved s b (s.x + 8) s.y = done ∙ rw (char, near) in
    let exact : add32 (s.x + 8) 8 ≡ s.x + 16 = omega arith in
    let exact' : add32 (s.x + 16) 8 ≡ s.x + 24 = omega arith in
    let inside : ltb s.width (s.x + 24) ≡ false = ltb-false (s.x + 24) s.width room in
    rw (char, kept, exact, exact', inside)
