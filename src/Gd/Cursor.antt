-- ===== src/Gd/Cursor.antt =====
-- drivers/gd.c: where the cursor of the text stands after characters.
use mathlib.Core.Path.{subst}
use nika_kernel.Prelude.{
  ℕ, zero, suc, ◌+◌, ◌-◌, ◌^◌, ◌≤◌, ◌<◌, ◌≡◌, inl, inr, arith, ap, ◌∙◌, sym, Bool, false, ◌||◌,
  ◌==◌, ==-false_of_ne, ltb, add32, sub32, if◌then◌else◌, Bool-cases, some, List, [], ◌∷◌, length,
}
use nika_kernel.CString.{Buffer}
use nika_kernel.CString.Strings.{IsString}
use nika_kernel.Gd.{Screen, shifted, scroll_screen}
use nika_kernel.Gd.Text.{Font, draw_char, next_row, scroll_text, gdl_putchar, put_string}
use nika_kernel.Gd.Place.{IsFramebuffer}
use nika_kernel.Gd.Rect.{draw_rect-Draws}
use nika_kernel.Gd.Glyph.{draw_char-Draws}

-- A framebuffer with the cell of the next character inside it.
pub record IsReady (s : Screen) : Type 0 where
  pub frame : IsFramebuffer s
  pub right : s.x + 8 ≤ s.width
  pub bottom : s.y + 8 ≤ s.height
  pub width_fits : s.width + 16 ≤ 2 ^ 32
  pub height_fits : s.height + 16 ≤ 2 ^ 32

-- The screen with other bytes and another cursor.
abbrev pub moved : Screen → Buffer → ℕ → ℕ → Screen
moved s b x y = record s { byte = b; x = x; y = y }

moved-IsFramebuffer :
    (s : Screen) (b : Buffer) (x y : ℕ) → IsFramebuffer s → IsFramebuffer (moved s b x y)
moved-IsFramebuffer s b x y f = record {
  ready = f.ready;
  depth = f.depth;
  room = f.room;
  aligned = f.aligned;
  fits = f.fits;
}

-- Scrolling changes bytes only.
scroll_screen-moved :
    (s : Screen)
    → IsFramebuffer s
    → s.width < 2 ^ 32
    → s.height < 2 ^ 32
    → 8 ≤ s.height
    → (b : Buffer) × (scroll_screen s 8 ≡ record s { byte = b })
unfolding scroll_screen
scroll_screen-moved s f wide high some_rows =
    let t = moved s (shifted s 8) s.x s.y in
    let d =
      draw_rect-Draws t 0 (sub32 s.height 8) s.width 8 0
        (moved-IsFramebuffer s (shifted s 8) s.x s.y f) (omega arith) (omega arith) in
    ((scroll_screen s 8).byte, d.shape)

scroll_text-moved :
    (s : Screen)
    → IsFramebuffer s
    → s.width < 2 ^ 32
    → s.height < 2 ^ 32
    → 8 ≤ s.height
    → 8 ≤ s.y
    → s.y + 8 < 2 ^ 32
    → (b : Buffer) × (scroll_text s
        ≡ moved s b s.x (if ltb s.height (s.y + 8) then s.y - 8 else s.y))
unfolding scroll_text
scroll_text-moved s f wide high some_rows down low =
    let (b, scrolled) = scroll_screen-moved s f wide high some_rows in
    let exact : add32 s.y 8 ≡ s.y + 8 = omega arith in
    elim (Bool-cases (ltb s.height (s.y + 8))) [
      | inl over ↦
          let back : sub32 s.y 8 ≡ s.y - 8 = omega arith in
          (b, rw (exact, over, scrolled) (ap (λ (y : ℕ). moved s b s.x y) back))
      | inr inside ↦ (s.byte, rw (exact, inside))
    ]

abbrev pub new_row : Screen → ℕ → Bool
new_row s c = (c == b'\n') || ltb s.width (s.x + 16)

abbrev pub next_x : Screen → ℕ → ℕ
next_x s c = if new_row s c then 0 else s.x + 8

abbrev pub next_y : Screen → ℕ → ℕ
next_y s c = if new_row s c then (if ltb s.height (s.y + 16) then s.y else s.y + 8) else s.y

pub draw_char-moved :
    (font : Font) (s : Screen) (c : ℕ) (color : ℕ)
    → IsReady s
    → (b : Buffer) × (draw_char font s s.x s.y c color ≡ moved s b s.x s.y)
draw_char-moved font s c color r =
    let d =
      draw_char-Draws font s s.x s.y c color r.frame (omega (arith, r.right, r.width_fits))
        (omega (arith, r.bottom, r.height_fits)) in
    ((draw_char font s s.x s.y c color).byte, d.shape)

-- The move to the next row of text.
line_feed :
    (s : Screen) (b : Buffer) (x : ℕ)
    → IsReady s
    → (m : Buffer) × (scroll_text (next_row (moved s b x s.y))
        ≡ moved s m 0 (if ltb s.height (s.y + 16) then s.y else s.y + 8))
line_feed s b x r =
    let exact : add32 s.y 8 ≡ s.y + 8 = omega (arith, r.bottom, r.height_fits) in
    let t = moved s b 0 (s.y + 8) in
    let row : (if ltb s.height (s.y + 8 + 8) then s.y + 8 - 8 else s.y + 8)
        ≡ (if ltb s.height (s.y + 16) then s.y else s.y + 8) =
      ground arith in
    let (m, done) =
      scroll_text-moved t (moved-IsFramebuffer s b 0 (s.y + 8) r.frame) (omega arith) (omega arith)
        (omega arith) (omega arith) (omega arith) in
    (
      m,
      ap (λ (y : ℕ). scroll_text (moved s b 0 y)) exact ∙ done ∙ ap (λ (y : ℕ). moved s m 0 y) row,
    )

pub gdl_putchar-moved :
    (font : Font) (s : Screen) (c : ℕ)
    → IsReady s
    → (b : Buffer) × (gdl_putchar font s c ≡ moved s b (next_x s c) (next_y s c))
unfolding gdl_putchar
gdl_putchar-moved font s c r =
    let (drawn, drew) = draw_char-moved font s c s.color r in
    let exact : add32 s.x 8 ≡ s.x + 8 = omega (arith, r.right, r.width_fits) in
    let exact' : add32 (s.x + 8) 8 ≡ s.x + 16 = omega (arith, r.right, r.width_fits) in
    elim (Bool-cases (c == b'\n')) [
      | inl feed ↦ let (m, done) = line_feed s s.byte s.x r in (m, rw feed done)
      | inr char ↦
          let (m, done) = line_feed s drawn (s.x + 8) r in
          elim (Bool-cases (ltb s.width (s.x + 16))) [
            | inl full ↦ (m, rw (char, drew, exact, exact', full) done)
            | inr room ↦ (drawn, rw (char, drew, exact, exact', room))
          ]
    ]

-- Where the cell of the next character lies inside the framebuffer, `gdl_putchar` moves the cursor to
-- the next cell, at the end of a row and at a line feed to the next row of text, and stays in the last
-- row: the cell lies inside the framebuffer again, and the variables other than the cursor are as
-- before.
pub gdl_putchar_lem :
    (font : Font) (s : Screen) (c : ℕ)
    → IsReady s
    → IsReady (gdl_putchar font s c)
      × ((b : Buffer) × (gdl_putchar font s c ≡ moved s b (next_x s c) (next_y s c)))
gdl_putchar_lem font s c r =
    let (b, done) = gdl_putchar-moved font s c r in
    let kept : IsReady (moved s b (next_x s c) (next_y s c)) = record {
      frame = moved-IsFramebuffer s b (next_x s c) (next_y s c) r.frame;
      right = ground arith;
      bottom = ground arith;
      width_fits = r.width_fits;
      height_fits = r.height_fits;
    } in
    (subst IsReady (sym done) kept, (b, done))

-- The characters of a list, in turn.
abbrev pub write_text : Font → List ℕ → Screen → Screen
write_text font [] s = s
write_text font (c ∷ cs) s = write_text font cs (gdl_putchar font s c)

-- The loop of `kDebug` over a string shorter than the fuel returns, writes its characters in turn and
-- leaves the cell of the next character inside the framebuffer, however long the text is.
pub put_string-write_text :
    (font : Font) (fuel i : ℕ) (text : Buffer) (cs : List ℕ) (s : Screen)
    → IsString text i cs
    → length cs < fuel
    → IsReady s
    → (put_string font fuel i text s ≡ some (write_text font cs s)) × IsReady (write_text font cs s)
unfolding put_string
put_string-write_text font zero i text cs s h enough r = absurd (omega arith)
put_string-write_text font (suc fuel) i text [] s h enough r = (rw h, r)
put_string-write_text font (suc fuel) i text (c ∷ cs) s h enough r =
    let more : (text i == 0) ≡ false = ==-false_of_ne (text i) 0 (omega (arith, h.0, h.1)) in
    let same : gdl_putchar font s (text i) ≡ gdl_putchar font s c = ap (gdl_putchar font s) h.0 in
    let rest =
      put_string-write_text font fuel (i + 1) text cs (gdl_putchar font s c) h.3 (omega arith)
        (gdl_putchar_lem font s c r).0 in
    (rw more (ap (put_string font fuel (i + 1) text) same ∙ rest.0), rest.1)
