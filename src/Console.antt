-- ===== src/Console.antt =====
-- lib/stdio.c: the text screen, numbers as text and the format loop of `EarlyLog`. A pointer to
-- characters is a buffer, and the loops over strings take fuel: `none` is a loop that used it up.
pub mod Cursor
pub mod Reverse
pub mod Itoa
pub mod Format
pub mod Log
mod Tests
use nika_kernel.Prelude.{
  ℕ, zero, suc, ◌+◌, ◌-◌, ◌*◌, ◌/◌, ◌%◌, ◌^◌, bit_or, not, Option, none, some, ◌==◌, ltb, leb,
  if◌then◌else◌, u8, ◌<<<◌,
}
use nika_kernel.Prelude.Fallible.{◌>>=◌}
use nika_kernel.Prelude.Int.{ℤ, pos, negsuc}
use nika_kernel.CString.{Buffer, poke}

abbrev pub vga_width : ℕ
vga_width = 80

abbrev pub vga_height : ℕ
vga_height = 25

-- The 16-bit cells at their addresses, the pointer `vga`, and the cursor that `putchar` keeps.
pub record Console : Type 0 where
  pub cell : ℕ → ℕ
  pub vga : ℕ
  pub x : ℕ
  pub y : ℕ

abbrev pub vga_at : ℕ → ℕ → ℕ
vga_at x y = 0xb8000 + 2 * (y * vga_width + x)

abbrev pub init_stdio : Console → Console
init_stdio s = record s { vga = vga_at 0 0 }

-- The cell for a character: a `char` is signed, so its sign fills the byte above it.
abbrev pub lit_cell : ℕ → ℕ
lit_cell c = bit_or (if ltb c 128 then c else 0xff00 + c) (0x0f <<< 8)

-- The cursor behind a character that is no line feed.
abbrev pub advance : Console → Console
advance s =
    if leb vga_width (s.x + 1) then record s { x = 0; y = s.y + 1 } else record s { x = s.x + 1 }

-- The last statement of `putchar`.
abbrev pub wrap_row : Console → Console
wrap_row s = if leb vga_height s.y then record s { y = 0 } else s

unfoldable pub putchar : Console → ℕ → Console
putchar s c =
    let at = vga_at s.x s.y in
    let written = record s { cell = λ a. if at == a then lit_cell c else s.cell a } in
    wrap_row (if c == b'\n' then record s { x = 0; y = s.y + 1 } else advance written)

-- `Stdout` from offset `i` on.
unfoldable pub stdout_from : ℕ → ℕ → Buffer → Console → Option Console
unfolding putchar
stdout_from zero i text s = none
stdout_from (suc fuel) i text s =
    let onward = stdout_from fuel (i + 1) text (putchar s (text i)) in
    if text i == 0 then some s else onward

abbrev pub stdout : ℕ → Buffer → Console → Option Console
stdout fuel text s = stdout_from fuel 0 text s

-- The character of a digit; the remainder of a negative number is negative.
abbrev pub digit_of : ℕ → ℕ
digit_of d = if ltb d 10 then b'0' + d else b'a' + d - 10

abbrev pub negative_digit_of : ℕ → ℕ
negative_digit_of d = u8 (b'0' + 256 - d)

-- The `do` loop of `itoa` with `temp` or its negative, as `digit` says, at `ptr`: the buffer, and
-- `ptr` behind the digits.
unfoldable pub put_digits : (ℕ → ℕ) → ℕ → ℕ → ℕ → ℕ → Buffer → Option (ℕ × Buffer)
put_digits digit zero base temp ptr buf = none
put_digits digit (suc fuel) base temp ptr buf =
    let put = poke buf ptr (digit (temp % base)) in
    let onward = put_digits digit fuel base (temp / base) (ptr + 1) put in
    if temp / base == 0 then some (ptr + 1, put) else onward

-- The last loop of `itoa`, which exchanges the ends until they meet.
unfoldable pub reverse_ends : ℕ → ℕ → ℕ → Buffer → Buffer
reverse_ends zero start end buf = buf
reverse_ends (suc fuel) start end buf =
    let onward =
      reverse_ends fuel (start + 1) (end - 1) (poke (poke buf start (buf end)) end (buf start)) in
    if ltb start end then onward else buf

-- The zero at `ptr`, and the text turned round; the loop makes fewer rounds than there are bytes.
abbrev pub finish : ℕ → Buffer → Buffer
finish ptr buf = reverse_ends ptr 0 (ptr - 1) (poke buf ptr 0)

-- `val` is an `int` other than the least one: in base 10 `-val` has no meaning for that one in C, and
-- the theorems on the text of a format leave it out.
unfoldable pub itoa : ℕ → ℤ → Buffer → ℕ → Option Buffer
unfolding put_digits reverse_ends
itoa fuel (pos v) buf base = do
  out ← put_digits digit_of fuel base v 0 buf
  some (finish out.0 out.1)
itoa fuel (negsuc n) buf base = do
  out ← put_digits (if base == 10 then digit_of else negative_digit_of) fuel base (n + 1) 0 buf
  some (if base == 10 then finish (out.0 + 1) (poke out.1 out.0 b'-') else finish out.0 out.1)

-- The `int` that a word stands for.
abbrev pub signed32 : ℕ → ℤ
signed32 w = if ltb w (2 ^ 31) then pos w else negsuc (2 ^ 32 - 1 - w)

-- How many arguments a directive takes.
abbrev pub arguments : ℕ → ℕ
arguments d =
    if d == b's'
    then 1
    else if d == b'c'
    then 1
    else if d == b'd'
    then 1
    else if d == b'x'
    then 1
    else if d == b'p'
    then 1
    else 0

-- `itoa` into the local buffer, and the text to the screen; a word has at most 32 digits.
abbrev pub print_int : ℕ → Buffer → ℕ → ℕ → Console → Option Console
print_int fuel buf w base s = do text ← itoa 32 (signed32 w) buf base; stdout fuel text s

-- The `switch` of `EarlyLog` on the character behind '%', with the next argument `w`: `text_at` is
-- the memory at a pointer, and `buf` the uninitialised buffer.
unfoldable pub directive : ℕ → (ℕ → Buffer) → Buffer → ℕ → ℕ → Console → Option Console
directive fuel text_at buf d w s =
    if d == b's'
    then stdout fuel (text_at w) s
    else if d == b'c'
    then some (putchar s (u8 w))
    else if d == b'd'
    then print_int fuel buf w 10 s
    else if d == b'x'
    then print_int fuel buf w 16 s
    else if d == b'p'
    then print_int fuel buf w 16 (putchar (putchar s b'0') b'x')
    else if d == b'%'
    then some (putchar s b'%')
    else some (putchar s b'?')

-- `EarlyLog` from offset `i` of the format on, with the arguments from `va k` on, each a word.
unfoldable pub early_log_from :
    ℕ → (ℕ → Buffer) → Buffer → ℕ → ℕ → Buffer → (ℕ → ℕ) → ℕ → Console → Option Console
unfolding directive
early_log_from fuel text_at buf zero i fmt va k s = none
early_log_from fuel text_at buf (suc rounds) i fmt va k s =
    let onward = early_log_from fuel text_at buf rounds (i + 1) fmt va k (putchar s (fmt i)) in
    let directed = (do
      t ← directive fuel text_at buf (fmt (i + 1)) (va k) s
      early_log_from fuel text_at buf rounds (i + 2) fmt va (k + arguments (fmt (i + 1))) t) in
    if fmt i == 0 then some s else if not (fmt i == b'%') then onward else directed

unfoldable pub early_log : ℕ → (ℕ → Buffer) → Buffer → Buffer → (ℕ → ℕ) → Console → Option Console
unfolding early_log_from
early_log fuel text_at buf fmt va s = early_log_from fuel text_at buf fuel 0 fmt va 0 s
