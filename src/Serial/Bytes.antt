-- ===== src/Serial/Bytes.antt =====
-- The bytes that the parts of a format of `serial_printf` in lib/serial.c stand for, and their sending.
use nika_kernel.Prelude.{
  ℕ, suc, ◌+◌, ◌^◌, ◌<◌, ◌≡◌, ◌≢◌, refl, arith, ap, sym, ◌∙◌, inl, inr, Option, none, some, List,
  [], ◌∷◌, ◌++◌, ◌==◌, ==_iff, ==-false_of_ne, if◌then◌else◌, Bool-cases, Bool, ◌||◌, bit_and, u8,
}
use nika_kernel.Prelude.Fallible.{◌>>=◌}
use nika_kernel.Io.{Log, Device, wrote, was_read}
use nika_kernel.Serial.{
  serial_write_byte, serial_write, itoa, ptoa, int_of, arguments, directive, plain,
}
use nika_kernel.Serial.Numerals.{digit, numeral, integer, itoa-integer, ptoa-numeral}

-- A line that always takes the next byte.
abbrev pub IsEmpty : Device → Type 0
IsEmpty device = (log : Log) → bit_and (u8 (device log 0x3fd)) 0x20 ≢ 0

-- What bytes leave in the log.
abbrev pub send : ℕ → Log → Log
send c log = wrote 0x3f8 (u8 c) ∷ was_read 0x3fd ∷ log

abbrev pub send_all : List ℕ → Log → Log
send_all [] log = log
send_all (c ∷ cs) log = send_all cs (send c log)

pub send_all-append :
    (a b : List ℕ) (log : Log) → send_all (a ++ b) log ≡ send_all b (send_all a log)
send_all-append [] b log = refl
send_all-append (c ∷ a) b log = send_all-append a b (send c log)

-- The bytes of a string: a line feed is sent behind a carriage return, and then once more.
abbrev pub string_bytes : List ℕ → List ℕ
string_bytes [] = []
string_bytes (c ∷ cs) =
    let rest = string_bytes cs in if c == b'\n' then b'\r' ∷ b'\n' ∷ b'\n' ∷ rest else c ∷ rest

-- The bytes of a character of the format.
abbrev pub format_bytes : ℕ → List ℕ
format_bytes c = if c == b'\n' then b'\r' ∷ b'\n' ∷ [] else c ∷ []

-- The bytes that a directive stands for, with the string at each pointer.
abbrev pub piece : (ℕ → List ℕ) → ℕ → ℕ → Option (List ℕ)
piece strings d w =
    if d == b'c'
    then some (u8 w ∷ [])
    else if d == b's'
    then some (string_bytes (strings w))
    else if d == b'd'
    then some (string_bytes (integer w 10))
    else if d == b'x'
    then some (string_bytes (integer w 16))
    else if d == b'p'
    then some (string_bytes (b'0' ∷ b'x' ∷ numeral digit 32 16 w))
    else some (d ∷ [])

-- The directives that take an argument.
abbrev pub takes_argument : ℕ → Bool
takes_argument d = (d == b's') || (d == b'c') || (d == b'd') || (d == b'x') || (d == b'p')

abbrev pub taken : ℕ → ℕ
taken d = if takes_argument d then 1 else 0

pub arguments-taken : (d : ℕ) → arguments d ≡ taken d
arguments-taken d = ground arith

-- The bytes that a format stands for, with the arguments from `va k` on; none when it ends in an open
-- directive.
unfoldable pub format : (ℕ → List ℕ) → (ℕ → ℕ) → ℕ → List ℕ → Option (List ℕ)
format strings va k [] = some []
format strings va k (c ∷ []) = if c == b'%' then none else some (format_bytes c)
format strings va k (c ∷ d ∷ r) =
    let directed = (do
      a ← piece strings d (va k)
      b ← format strings va (k + taken d) r
      some (a ++ b)) in
    let onward = (do b ← format strings va k (d ∷ r); some (format_bytes c ++ b)) in
    if c == b'%' then directed else onward

-- No directive is open at the end.
abbrev pub IsClosed : List ℕ → Type 0
IsClosed [] = Unit
IsClosed (c ∷ []) = c ≢ b'%'
IsClosed (c ∷ d ∷ r) = (c ≡ b'%' → IsClosed r) × (c ≢ b'%' → IsClosed (d ∷ r))

module _ (fuel : ℕ) (device : Device) (empty : IsEmpty device) where
  serial_write_byte-send :
      (log : Log) (c : ℕ) → serial_write_byte (suc fuel) device log c ≡ some (send c log)
  unfolding serial_write_byte
  serial_write_byte-send log c =
      rw (==-false_of_ne (bit_and (u8 (device log 0x3fd)) 0x20) 0 (empty log))

  serial_write-send_all :
      (log : Log) (cs : List ℕ)
      → serial_write (suc fuel) device log cs ≡ some (send_all (string_bytes cs) log)
  unfolding serial_write
  serial_write-send_all log [] = refl
  serial_write-send_all log (c ∷ cs) = elim (Bool-cases (c == b'\n')) [
    | inl feed ↦
        let l = send b'\r' log in
        rw
          (
            feed,
            serial_write_byte-send log b'\r',
            serial_write_byte-send l c,
            serial_write_byte-send (send c l) c,
          )
          (serial_write-send_all (send c (send c l)) cs
            ∙ ap (λ (k : ℕ). some (send_all (string_bytes cs) (send k (send k l))))
                ((==_iff c 10).0 feed))
    | inr other ↦ rw (other, serial_write_byte-send log c) (serial_write-send_all (send c log) cs)
  ]

  pub plain-send_all :
      (log : Log) (c : ℕ) → plain (suc fuel) device log c ≡ some (send_all (format_bytes c) log)
  unfolding plain
  plain-send_all log c = elim (Bool-cases (c == b'\n')) [
    | inl feed ↦
        let l = send b'\r' log in
        rw (feed, serial_write_byte-send log b'\r', serial_write_byte-send l c)
          (ap (λ (k : ℕ). some (send k l)) ((==_iff c 10).0 feed))
    | inr other ↦ rw (other, serial_write_byte-send log c)
  ]

  -- A number's text, sent.
  number-send_all :
      (log : Log) (made : Option (List ℕ)) (text : List ℕ)
      → made ≡ some text
      → (made >>= λ t. serial_write (suc fuel) device log t)
        ≡ some (send_all (string_bytes text) log)
  number-send_all log made text e = rw e (serial_write-send_all log text)

  -- A percent sign and any other character behind one are sent as they are.
  same_byte :
      (d : ℕ) (log : Log)
      → (if d == b'%'
          then serial_write_byte (suc fuel) device log b'%'
          else serial_write_byte (suc fuel) device log d)
        ≡ some (send d log)
  same_byte d log = elim (Bool-cases (d == b'%')) [
    | inl percent ↦ rw percent (
        serial_write_byte-send log b'%'
        ∙ ap (λ (k : ℕ). some (send k log)) (sym ((==_iff d 37).0 percent)))
    | inr other ↦ rw other (serial_write_byte-send log d)
  ]

  pub directive-piece :
      (strings : ℕ → List ℕ) (d w : ℕ) (log : Log)
      → w < 2 ^ 32
      → (out : List ℕ) × (piece strings d w ≡ some out)
        × (directive (suc fuel) strings device d w log ≡ some (send_all out log))
  unfolding directive
  directive-piece strings d w log word =
      let dec =
        number-send_all log (itoa 33 (int_of w) 10) (integer w 10)
          (itoa-integer w 10 word (omega arith)) in
      let hex =
        number-send_all log (itoa 33 (int_of w) 16) (integer w 16)
          (itoa-integer w 16 word (omega arith)) in
      let pointer = b'0' ∷ b'x' ∷ numeral digit 32 16 w in
      let ptr = number-send_all log (ptoa 33 w) pointer (ptoa-numeral w word) in
      elim (Bool-cases (d == b'c')) [
        | inl is_c ↦ (u8 w ∷ [], rw is_c, rw is_c (serial_write_byte-send log (u8 w)))
        | inr not_c ↦ elim (Bool-cases (d == b's')) [
          | inl is_s ↦ (
            string_bytes (strings w),
            rw (not_c, is_s),
            rw (not_c, is_s) (serial_write-send_all log (strings w)),
          )
          | inr not_s ↦ elim (Bool-cases (d == b'd')) [
            | inl is_d ↦
                (string_bytes (integer w 10), rw (not_c, not_s, is_d), rw (not_c, not_s, is_d) dec)
            | inr not_d ↦ elim (Bool-cases (d == b'x')) [
              | inl is_x ↦ (
                string_bytes (integer w 16),
                rw (not_c, not_s, not_d, is_x),
                rw (not_c, not_s, not_d, is_x) hex,
              )
              | inr not_x ↦ elim (Bool-cases (d == b'p')) [
                | inl is_p ↦ (
                  string_bytes pointer,
                  rw (not_c, not_s, not_d, not_x, is_p),
                  rw (not_c, not_s, not_d, not_x, is_p) ptr,
                )
                | inr not_p ↦ (
                  d ∷ [],
                  rw (not_c, not_s, not_d, not_x, not_p),
                  rw (not_c, not_s, not_d, not_x, not_p) (same_byte d log),
                )
              ]
            ]
          ]
        ]
      ]
