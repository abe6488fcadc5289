-- ===== src/Console/Itoa.antt =====
-- `itoa` of lib/stdio.c, which fills a buffer and turns it round, against that of lib/serial.c, which
-- fills one and copies it backwards.
use nika_kernel.Prelude.{
  ℕ, zero, suc, ◌+◌, ◌-◌, ◌/◌, ◌%◌, ◌^◌, ◌≤◌, ◌<◌, ◌≡◌, refl, arith, ap, sym, ◌∙◌, false, inl, inr,
  Option, some, List, [], ◌∷◌, length, ◌==◌, ==-false_of_ne, if◌then◌else◌, Bool-cases,
}
use native.Mathlib.Nat.{mod-lt, mod-eq_of_lt, div-eq_of_lt}
use mathlib.Core.Path.{subst}
use nika_kernel.Prelude.Fallible.{◌>>=◌}
use nika_kernel.Prelude.Int.{ℤ, pos, negsuc}
use nika_kernel.CString.{Buffer, poke}
use nika_kernel.CString.Strings.{IsString}
use nika_kernel.Console.{digit_of, negative_digit_of, put_digits, finish, itoa}
use nika_kernel.Console.Reverse.{Backwards, Backwards-poke, finish-IsString}
use nika_kernel.Serial
use nika_kernel.Serial.{digits, digit_char, negative_digit_char}
use nika_kernel.Serial.Numbers.{quotient_lt}

-- A digit of both files is the same character, and no zero.
abbrev Agree : (ℕ → ℕ) → (ℕ → ℕ) → Type 0
Agree digit digit' = (d : ℕ) → d < 36 → (digit d ≡ digit' d) × (0 < digit d) × (digit d < 256)

digit_of-Agree : Agree digit_of digit_char
digit_of-Agree d lt = ground arith

negative_digit_of-Agree : Agree negative_digit_of negative_digit_char
negative_digit_of-Agree d lt = omega arith

-- What the loops of both files leave.
abbrev Leaves : Option (ℕ × Buffer) → Option (List ℕ) → ℕ → Type 0
Leaves filled made most =
    (ptr : ℕ) × (b : Buffer) × (c : ℕ) × (cs : List ℕ) × (filled ≡ some (ptr, b))
    × (made ≡ some (c ∷ cs))
    × Backwards b ptr (c ∷ cs)
    × (ptr ≤ most)

Backwards-put :
    (buf : Buffer) (ptr c : ℕ) (cs : List ℕ)
    → 0 < c
    → c < 256
    → Backwards buf ptr cs
    → Backwards (poke buf ptr c) (ptr + 1) (c ∷ cs)
Backwards-put buf ptr c cs lo hi h =
    let index : ptr + 1 - 1 ≡ ptr = omega arith in
    (
      omega arith,
      ground arith,
      lo,
      hi,
      subst (λ k. Backwards (poke buf ptr c) k cs) (sym index)
          (Backwards-poke buf ptr ptr c cs (omega arith) h),
    )

put_digits-digits :
    (digit digit' : ℕ → ℕ) (fuel base temp ptr : ℕ) (buf : Buffer) (text : List ℕ)
    → Agree digit digit'
    → 2 ≤ base
    → base ≤ 36
    → 0 < temp
    → temp < 2 ^ fuel
    → Backwards buf ptr text
    → Leaves
        (put_digits digit fuel base temp ptr buf)
        (digits digit' (suc fuel) base temp text)
        (ptr + fuel)
unfolding put_digits digits
put_digits-digits digit digit' zero base temp ptr buf text same two few real lt h =
    absurd (omega arith)
put_digits-digits digit digit' (suc fuel) base temp ptr buf text same two few real lt h =
    let small : temp % base < base = mod-lt temp (omega arith) in
    let d = same (temp % base) (omega arith) in
    let put = Backwards-put buf ptr (digit (temp % base)) text d.1 d.2 h in
    let more : (temp == 0) ≡ false = ==-false_of_ne temp 0 (omega arith) in
    elim (Bool-cases (temp / base == 0)) [
      | inl last ↦ (
        ptr + 1,
        poke buf ptr (digit (temp % base)),
        digit (temp % base),
        text,
        rw last,
        rw (more, last, d.0),
        put,
        omega arith,
      )
      | inr again ↦
          let (p, b, c, cs, filled, made, back, most) =
            put_digits-digits digit digit' fuel base (temp / base) (ptr + 1)
              (poke buf ptr (digit (temp % base))) (digit (temp % base) ∷ text) same two few
              (ground arith) (quotient_lt fuel base temp two lt) put in
          (p, b, c, cs, rw again filled, rw (more, ← d.0) made, back, omega arith)
    ]

abbrev pub magnitude : ℤ → ℕ
magnitude (pos n) = n
magnitude (negsuc n) = n + 1

-- The text of both functions, as a string in the buffer and as a list.
abbrev pub SameText : Option Buffer → Option (List ℕ) → ℕ → Type 0
SameText filled made most =
    (b : Buffer) × (text : List ℕ) × (filled ≡ some b)
    × (made ≡ some text)
    × IsString b 0 text
    × (length text ≤ most)

length-Backwards : (b : Buffer) (p : ℕ) (cs : List ℕ) → Backwards b p cs → length cs ≡ p
length-Backwards b p [] h = omega arith
length-Backwards b p (c ∷ cs) h = omega (arith, length-Backwards b (p - 1) cs h.4)

zero_text :
    (fuel base : ℕ) (buf : Buffer)
    → 2 ≤ base
    → SameText
        (itoa (suc fuel) (pos 0) buf base)
        (Serial.itoa (suc (suc fuel)) (pos 0) base)
        (suc fuel + 1)
unfolding itoa put_digits Serial.itoa
zero_text fuel base buf two =
    let quotient : 0 / base ≡ 0 = div-eq_of_lt {n = 0} {m = base} (omega arith) in
    let rest : 0 % base ≡ 0 = mod-eq_of_lt {n = 0} {m = base} (omega arith) in
    (
      finish 1 (poke buf 0 48),
      48 ∷ [],
      rw (quotient, rest),
      refl,
      finish-IsString (poke buf 0 48) 1 48 [] (ground arith),
      omega arith,
    )

pos_text :
    (fuel base v : ℕ) (buf : Buffer)
    → 2 ≤ base
    → base ≤ 36
    → 0 < v
    → v < 2 ^ fuel
    → SameText (itoa fuel (pos v) buf base) (Serial.itoa (suc fuel) (pos v) base) (fuel + 1)
unfolding itoa Serial.itoa
pos_text fuel base v buf two few real lt =
    let (p, b, c, cs, filled, made, back, most) =
      put_digits-digits digit_of digit_char fuel base v 0 buf [] digit_of-Agree two few real lt
        refl in
    let more : (v == 0) ≡ false = ==-false_of_ne v 0 (omega arith) in
    (
      finish p b,
      c ∷ cs,
      rw filled,
      ap (λ t. if t then some (48 ∷ []) else digits digit_char (suc fuel) base v []) more ∙ made,
      finish-IsString b p c cs back,
      omega (arith, length-Backwards b p (c ∷ cs) back),
    )

negsuc_text :
    (fuel base n : ℕ) (buf : Buffer)
    → 2 ≤ base
    → base ≤ 36
    → n + 1 < 2 ^ fuel
    → SameText (itoa fuel (negsuc n) buf base) (Serial.itoa (suc fuel) (negsuc n) base) (fuel + 1)
unfolding itoa Serial.itoa
negsuc_text fuel base n buf two few lt = elim (Bool-cases (base == 10)) [
  | inl ten ↦
      let (p, b, c, cs, filled, made, back, most) =
        put_digits-digits digit_of digit_char fuel base (n + 1) 0 buf [] digit_of-Agree two few
          (omega arith) lt refl in
      (
        finish (p + 1) (poke b p 45),
        45 ∷ c ∷ cs,
        rw (ten, filled),
        rw ten (ap (λ (o : Option (List ℕ)). o >>= λ text. some (45 ∷ text)) made),
        finish-IsString (poke b p 45) (p + 1) 45 (c ∷ cs)
            (Backwards-put b p 45 (c ∷ cs) (omega arith) (omega arith) back),
        omega (arith, length-Backwards b p (c ∷ cs) back),
      )
  | inr other ↦
      let (p, b, c, cs, filled, made, back, most) =
        put_digits-digits negative_digit_of negative_digit_char fuel base (n + 1) 0 buf []
          negative_digit_of-Agree two few (omega arith) lt refl in
      (
        finish p b,
        c ∷ cs,
        rw (other, filled),
        rw other made,
        finish-IsString b p c cs back,
        omega (arith, length-Backwards b p (c ∷ cs) back),
      )
]

-- The two functions `itoa` of the kernel write the same text, for every base from 2 to 36 and every
-- number whose magnitude is below 2^fuel, the sign and the characters for a negative number in
-- another base than 10 included: the one of lib/stdio.c leaves as a string in its buffer what the one
-- of lib/serial.c copies out, at most fuel + 1 characters.
pub itoa_same :
    (fuel base : ℕ) (v : ℤ) (buf : Buffer)
    → 2 ≤ base
    → base ≤ 36
    → 0 < fuel
    → magnitude v < 2 ^ fuel
    → SameText (itoa fuel v buf base) (Serial.itoa (suc fuel) v base) (fuel + 1)
itoa_same fuel base (negsuc n) buf two few some_fuel lt = negsuc_text fuel base n buf two few lt
itoa_same zero base (pos v) buf two few some_fuel lt = absurd (omega arith)
itoa_same (suc fuel) base (pos zero) buf two few some_fuel lt = zero_text fuel base buf two
itoa_same (suc fuel) base (pos (suc v)) buf two few some_fuel lt =
    pos_text (suc fuel) base (suc v) buf two few (omega arith) lt
