-- ===== src/Gd/Text.antt =====
-- drivers/gd.c: characters on the framebuffer, and the format loop of `kDebug`. The font is the table
-- `font8x8_basic`, an argument here: the byte of a character in a row.
use nika_kernel.Prelude.{
  ℕ, zero, suc, ◌+◌, bit_and, Option, none, some, ◌==◌, ltb, Bool, if◌then◌else◌, u8, add32, sub32,
  ◌<<<◌,
}
use nika_kernel.Prelude.Fallible.{◌>>=◌}
use nika_kernel.CString.{Buffer}
use nika_kernel.Console.{signed32, itoa, arguments}
use nika_kernel.Gd.{Screen, put_pixel, scroll_screen}

abbrev pub Font : Type 0
Font = ℕ → ℕ → ℕ

-- The loop of `draw_char` over the columns of a row from `col` on.
unfoldable pub draw_bits : ℕ → ℕ → Screen → ℕ → ℕ → ℕ → ℕ → Screen
unfolding put_pixel
draw_bits zero col s x y bits color = s
draw_bits (suc more) col s x y bits color =
    let drawn = if bit_and bits (1 <<< col) == 0 then s else put_pixel s (add32 x col) y color in
    draw_bits more (col + 1) drawn x y bits color

-- The loop over the rows from `row` on.
unfoldable pub draw_glyph : ℕ → ℕ → Screen → ℕ → ℕ → (ℕ → ℕ) → ℕ → Screen
unfolding draw_bits
draw_glyph zero row s x y glyph color = s
draw_glyph (suc more) row s x y glyph color =
    draw_glyph more (row + 1) (draw_bits 8 0 s x (add32 y row) (u8 (glyph row)) color) x y glyph
      color

unfoldable pub draw_char : Font → Screen → ℕ → ℕ → ℕ → ℕ → Screen
unfolding draw_glyph
draw_char font s x y c color = if ltb 127 c then s else draw_glyph 8 0 s x y (font c) color

-- The cursor at the start of the next row of text, with no scrolling.
abbrev pub next_row : Screen → Screen
next_row s = record s { x = 0; y = add32 s.y 8 }

-- The test behind it in `gdl_putchar`: text that would leave the screen scrolls it.
unfoldable pub scroll_text : Screen → Screen
unfolding scroll_screen
scroll_text s =
    let t = scroll_screen s 8 in
    if ltb s.height (add32 s.y 8) then record t { y = sub32 t.y 8 } else s

-- The cursor behind a character.
abbrev pub step_right : Screen → Screen
step_right s = record s { x = add32 s.x 8 }

-- Whether no other character has room in the row.
abbrev pub row_full : Screen → Bool
row_full s = ltb s.width (add32 s.x 8)

unfoldable pub gdl_putchar : Font → Screen → ℕ → Screen
unfolding draw_char scroll_text
gdl_putchar font s c =
    let drawn = step_right (draw_char font s s.x s.y c s.color) in
    if c == b'\n'
    then scroll_text (next_row s)
    else if row_full drawn
    then scroll_text (next_row drawn)
    else drawn

-- The string at offset `i` of a buffer, through `gdl_putchar`.
unfoldable pub put_string : Font → ℕ → ℕ → Buffer → Screen → Option Screen
unfolding gdl_putchar
put_string font zero i text s = none
put_string font (suc fuel) i text s =
    let onward = put_string font fuel (i + 1) text (gdl_putchar font s (text i)) in
    if text i == 0 then some s else onward

-- One character of `gdl_print_color`: a full row goes on below without scrolling.
unfoldable pub print_char : Font → Screen → ℕ → ℕ → Screen
unfolding draw_char scroll_text
print_char font s c color =
    let drawn = step_right (draw_char font s s.x s.y c color) in
    if c == b'\n'
    then scroll_text (next_row s)
    else if row_full drawn
    then next_row drawn
    else drawn

unfoldable pub gdl_print_color_from : Font → ℕ → ℕ → Buffer → ℕ → Screen → Option Screen
unfolding print_char
gdl_print_color_from font zero i str color s = none
gdl_print_color_from font (suc fuel) i str color s =
    let onward =
      gdl_print_color_from font fuel (i + 1) str color (print_char font s (str i) color) in
    if str i == 0 then some s else onward

abbrev pub gdl_print_color : Font → ℕ → Buffer → ℕ → Screen → Option Screen
gdl_print_color font fuel str color s = gdl_print_color_from font fuel 0 str color s

-- A character of the format that is no directive: `kDebug` moves the cursor once more.
unfoldable pub debug_char : Font → Screen → ℕ → Screen
debug_char font s c =
    let moved = step_right (gdl_putchar font s c) in
    if c == b'\n'
    then scroll_text (next_row s)
    else if row_full moved
    then next_row moved
    else moved

-- `itoa` of an `int` into the local buffer, and the text to the screen.
abbrev pub debug_int : Font → ℕ → Buffer → ℕ → ℕ → Screen → Option Screen
debug_int font fuel buf w base s = do
  text ← itoa 32 (signed32 w) buf base
  put_string font fuel 0 text s

-- The `switch` of `kDebug` on the character behind '%', with the next argument `w`.
unfoldable pub directive : Font → ℕ → (ℕ → Buffer) → Buffer → ℕ → ℕ → Screen → Option Screen
unfolding gdl_putchar print_char put_string
directive font fuel text_at buf d w s =
    if d == b'd'
    then debug_int font fuel buf w 10 s
    else if d == b'x'
    then debug_int font fuel buf w 16 s
    else if d == b'p'
    then debug_int font fuel buf w 16
        (print_char font (print_char font s b'0' s.color) b'x' s.color)
    else if d == b'c'
    then some (gdl_putchar font s (u8 w))
    else if d == b's'
    then put_string font fuel 0 (text_at w) s
    else if d == b'%'
    then some (gdl_putchar font s b'%')
    else some (gdl_putchar font (gdl_putchar font s b'%') d)

-- The loop of `kDebug` from offset `i` of the format on, with the arguments from `va k` on.
unfoldable pub k_debug_from :
    Font → ℕ → (ℕ → Buffer) → Buffer → ℕ → ℕ → Buffer → (ℕ → ℕ) → ℕ → Screen → Option Screen
unfolding directive debug_char
k_debug_from font fuel text_at buf zero i fmt va k s = none
k_debug_from font fuel text_at buf (suc rounds) i fmt va k s =
    let d = fmt (i + 1) in
    let onward =
      k_debug_from font fuel text_at buf rounds (i + 1) fmt va k (debug_char font s (fmt i)) in
    let directed = (do
      t ← directive font fuel text_at buf d (va k) s
      k_debug_from font fuel text_at buf rounds (i + 2) fmt va (k + arguments d) t) in
    if fmt i == 0 then some s else if fmt i == b'%' then directed else onward

unfoldable pub k_debug :
    Font → ℕ → (ℕ → Buffer) → Buffer → Buffer → (ℕ → ℕ) → Screen → Option Screen
unfolding k_debug_from
k_debug font fuel text_at buf fmt va s = k_debug_from font fuel text_at buf fuel 0 fmt va 0 s
