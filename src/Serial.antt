-- ===== src/Serial.antt =====
-- lib/serial.c: output over the serial port, and numbers as text. A string is its characters; the
-- loops take fuel, and `none` is a loop that used it up.
pub mod Numbers
pub mod Numerals
pub mod Bytes
pub mod Printf
mod Tests
use nika_kernel.Prelude.{
  ℕ, zero, suc, ◌+◌, ◌-◌, ◌*◌, ◌/◌, ◌%◌, ◌^◌, bit_and, not, Option, none, some, List, [], ◌∷◌, ◌==◌,
  ltb, if◌then◌else◌, u8,
}
use nika_kernel.Prelude.Fallible.{◌>>=◌}
use nika_kernel.Prelude.Int.{ℤ, pos, negsuc}
use nika_kernel.CString.{Buffer}
use nika_kernel.Io.{Log, Device, x86write, x86read}

abbrev pub serial_port : ℕ
serial_port = 0x3f8

abbrev pub serial_init : Log → Log
serial_init log =
    let a = x86write log (serial_port + 1) 0x00 in
    let b = x86write a (serial_port + 3) 0x80 in
    let c = x86write b serial_port 0x00 in
    let d = x86write c (serial_port + 1) 0x00 in
    let e = x86write d (serial_port + 3) 0x03 in
    let f = x86write e (serial_port + 2) 0xc7 in x86write f (serial_port + 4) 0x0b

abbrev pub is_serial_transmit_empty : Device → Log → ℕ × Log
is_serial_transmit_empty device log =
    let out = x86read device log (serial_port + 5) in (bit_and out.0 0x20, out.1)

unfoldable pub serial_write_byte : ℕ → Device → Log → ℕ → Option Log
serial_write_byte zero device log c = none
serial_write_byte (suc fuel) device log c =
    let out = is_serial_transmit_empty device log in
    let again = serial_write_byte fuel device out.1 c in
    if out.0 == 0 then again else some (x86write out.1 serial_port c)

-- The characters of a string up to its zero; a line feed is 10 and a carriage return 13.
unfoldable pub serial_write : ℕ → Device → Log → List ℕ → Option Log
serial_write fuel device log [] = some log
serial_write fuel device log (c ∷ cs) = do
  a ←
      if c == 10
      then (serial_write_byte fuel device log 13 >>= λ b. serial_write_byte fuel device b c)
      else some log
  d ← serial_write_byte fuel device a c
  serial_write fuel device d cs

-- The character of a digit.
abbrev pub digit_char : ℕ → ℕ
digit_char rem = if ltb 9 rem then rem - 10 + 97 else rem + 48

-- The character for the negative of a remainder.
abbrev pub negative_digit_char : ℕ → ℕ
negative_digit_char rem = u8 (48 + 256 - rem)

-- The loop over the digits of `v`, or of its negative, as `digit` says, the last one first: the text
-- is what `temp` holds, reversed.
unfoldable pub digits : (ℕ → ℕ) → ℕ → ℕ → ℕ → List ℕ → Option (List ℕ)
digits digit zero base v text = none
digits digit (suc fuel) base v text =
    let onward = digits digit fuel base (v / base) (digit (v % base) ∷ text) in
    if v == 0 then some text else onward

-- `v` is an `int` other than the least one: in base 10 `-v` has no meaning for that one in C. The
-- digits go into `temp` in the order of the divisions, and the last loop copies them out backwards:
-- here each digit is put in front of those before it.
unfoldable pub itoa : ℕ → ℤ → ℕ → Option (List ℕ)
unfolding digits
itoa fuel (pos v) base = if v == 0 then some (48 ∷ []) else digits digit_char fuel base v []
itoa fuel (negsuc n) base =
    if base == 10
    then (digits digit_char fuel base (n + 1) [] >>= λ text. some (45 ∷ text))
    else digits negative_digit_char fuel base (n + 1) []

unfoldable pub ptoa : ℕ → ℕ → Option (List ℕ)
unfolding digits
ptoa fuel ptr =
    if ptr == 0
    then some (48 ∷ 120 ∷ 48 ∷ [])
    else (digits digit_char fuel 16 ptr [] >>= λ text. some (48 ∷ 120 ∷ text))

-- The `int` that a word stands for.
abbrev pub int_of : ℕ → ℤ
int_of w = if ltb w (2 ^ 31) then pos w else negsuc (2 ^ 32 - 1 - w)

-- How many arguments a directive takes.
abbrev pub arguments : ℕ → ℕ
arguments d =
    if d == b'c'
    then 1
    else if d == b's'
    then 1
    else if d == b'd'
    then 1
    else if d == b'x'
    then 1
    else if d == b'p'
    then 1
    else 0

-- The `switch` of `serial_printf` on the character behind '%', with the next argument `w`: `text_at`
-- is the string at a pointer, and a word has at most 32 digits.
unfoldable pub directive : ℕ → (ℕ → List ℕ) → Device → ℕ → ℕ → Log → Option Log
directive fuel text_at device d w log =
    let decimal = itoa 33 (int_of w) 10 in
    let hexadecimal = itoa 33 (int_of w) 16 in
    if d == b'c'
    then serial_write_byte fuel device log (u8 w)
    else if d == b's'
    then serial_write fuel device log (text_at w)
    else if d == b'd'
    then (decimal >>= λ text. serial_write fuel device log text)
    else if d == b'x'
    then (hexadecimal >>= λ text. serial_write fuel device log text)
    else if d == b'p'
    then (ptoa 33 w >>= λ text. serial_write fuel device log text)
    else if d == b'%'
    then serial_write_byte fuel device log b'%'
    else serial_write_byte fuel device log d

-- A character of the format itself.
unfoldable pub plain : ℕ → Device → Log → ℕ → Option Log
plain fuel device log c = do
  a ← if c == b'\n' then serial_write_byte fuel device log b'\r' else some log
  serial_write_byte fuel device a c

-- The loop of `serial_printf` from offset `i` on, with the arguments from `va k` on, each a word.
unfoldable pub serial_printf_from :
    ℕ → (ℕ → List ℕ) → Device → ℕ → ℕ → Buffer → (ℕ → ℕ) → ℕ → Log → Option Log
serial_printf_from fuel text_at device zero i fmt va k log = none
serial_printf_from fuel text_at device (suc rounds) i fmt va k log =
    let d = fmt (i + 1) in
    let onward = (do
      a ← plain fuel device log (fmt i)
      serial_printf_from fuel text_at device rounds (i + 1) fmt va k a) in
    let directed = (do
      a ← directive fuel text_at device d (va k) log
      serial_printf_from fuel text_at device rounds (i + 2) fmt va (k + arguments d) a) in
    if fmt i == 0 then some log else if fmt i == b'%' then directed else onward

unfoldable pub serial_printf : ℕ → (ℕ → List ℕ) → Device → Buffer → (ℕ → ℕ) → Log → Option Log
unfolding serial_printf_from
serial_printf fuel text_at device fmt va log =
    serial_printf_from fuel text_at device fuel 0 fmt va 0 log
