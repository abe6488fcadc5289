-- ===== src/Serial/Numerals.antt =====
-- The numerals that the formats of lib/serial.c and lib/stdio.c stand for, and `itoa` and `ptoa` of
-- lib/serial.c.
use mathlib.Core.Path.{subst}
use native.Mathlib.Nat.{div-eq_of_lt, mod-eq_of_lt, mod-lt, lt-div-mul-add}
use nika_kernel.Prelude.{
  ℕ, zero, suc, ◌+◌, ◌-◌, ◌*◌, ◌/◌, ◌%◌, ◌^◌, ◌≤◌, ◌<◌, ◌≡◌, ◌≢◌, refl, arith, ap, sym, ◌∙◌, Option,
  Bool, some, List, true, false, [], ◌∷◌, ◌++◌, ◌==◌, ==_iff, ==-false_of_ne, ltb, if◌then◌else◌,
  Bool-cases, inl, inr,
}
use nika_kernel.Prelude.Fallible.{◌>>=◌}
use nika_kernel.Prelude.Int.{pos, negsuc}
use nika_kernel.Serial.{digit_char, negative_digit_char, digits, itoa, ptoa, int_of}
use nika_kernel.Serial.Numbers.{quotient_lt}

-- A number in a base, from the first digit on, with at least one digit.
unfoldable pub numeral : (ℕ → ℕ) → ℕ → ℕ → ℕ → List ℕ
numeral char zero base n = []
numeral char (suc fuel) base n =
    let front = numeral char fuel base (n / base) in
    (if ltb n base then [] else front) ++ (char (n % base) ∷ [])

abbrev pub digit : ℕ → ℕ
digit d = if ltb d 10 then b'0' + d else b'a' + (d - 10)

-- The character that stands as far below '0' as the digit is above it.
abbrev pub below_zero : ℕ → ℕ
below_zero d = (b'0' + 256 - d) % 256

-- The text of a word as an `int`: a number below 0 has a minus sign in base 10, and in another base
-- the characters below '0'.
unfoldable pub integer : ℕ → ℕ → List ℕ
integer w base =
    if ltb w (2 ^ 31)
    then numeral digit 32 base w
    else if base == 10
    then b'-' ∷ numeral digit 32 base (2 ^ 32 - w)
    else numeral below_zero 32 base (2 ^ 32 - w)

append_assoc_one : (a : List ℕ) (c : ℕ) (text : List ℕ) → (a ++ (c ∷ [])) ++ text ≡ a ++ (c ∷ text)
append_assoc_one [] c text = refl
append_assoc_one (x ∷ a) c text = ap (λ (l : List ℕ). x ∷ l) (append_assoc_one a c text)

append_nothing : (a : List ℕ) → a ++ [] ≡ a
append_nothing [] = refl
append_nothing (x ∷ a) = ap (λ (l : List ℕ). x ∷ l) (append_nothing a)

module _ (code char : ℕ → ℕ) (base : ℕ) (two : 2 ≤ base)
    (same : (d : ℕ) → d < base → code d ≡ char d) where
  digits-numeral :
      (fuel v : ℕ) (text : List ℕ)
      → 0 < v
      → v < 2 ^ fuel
      → digits code (suc fuel) base v text ≡ some (numeral char fuel base v ++ text)
  unfolding digits numeral
  digits-numeral zero v text real lt = absurd (omega arith)
  digits-numeral (suc fuel) v text real lt =
      let more : (v == 0) ≡ false = ==-false_of_ne v 0 (omega arith) in
      let last : code (v % base) ≡ char (v % base) = same (v % base) (mod-lt v (omega arith)) in
      elim (Bool-cases (v / base == 0)) [
        | inl done ↦
            let short : ltb v base ≡ true = below v ((==_iff _ 0).0 done) in
            rw (more, done, short) (ap (λ (c : ℕ). some (c ∷ text)) last)
        | inr on ↦
            let long : ltb v base ≡ false = above v (λ e. ground arith) in
            rw (more, long)
              (digits-numeral fuel (v / base) (code (v % base) ∷ text) (ground arith)
                  (quotient_lt fuel base v two lt)
                ∙ ap (λ (c : ℕ). some (numeral char fuel base (v / base) ++ (c ∷ text))) last
                ∙ ap (λ (l : List ℕ). some l)
                    (sym (
                      append_assoc_one (numeral char fuel base (v / base)) (char (v % base)) text)))
      ]
    where
      below : (v : ℕ) → v / base ≡ 0 → ltb v base ≡ true
      below v e =
          let h = lt-div-mul-add {a = v} {b = base} (omega arith) in
          let low = subst (λ q. v < q * base + base) e h in ground (arith, low)

      above : (v : ℕ) → v / base ≢ 0 → ltb v base ≡ false
      above v ne = elim (Bool-cases (ltb v base)) [
        | inl low ↦ absurd (ne (div-eq_of_lt {n = v} {m = base} (ground (arith, low))))
        | inr high ↦ high
      ]

  digits-numeral_all :
      (fuel v : ℕ)
      → 0 < v
      → v < 2 ^ fuel
      → digits code (suc fuel) base v [] ≡ some (numeral char fuel base v)
  digits-numeral_all fuel v real lt =
      digits-numeral fuel v [] real lt
      ∙ ap (λ (l : List ℕ). some l) (append_nothing (numeral char fuel base v))

digit_char-digit : (d : ℕ) → digit_char d ≡ digit d
digit_char-digit d = ground arith

itoa-pos :
    (fuel base v : ℕ)
    → 2 ≤ base
    → v < 2 ^ suc fuel
    → itoa (suc (suc fuel)) (pos v) base ≡ some (numeral digit (suc fuel) base v)
unfolding itoa numeral
itoa-pos fuel base zero two lt =
    let short : ltb 0 base ≡ true = ground (arith, two) in
    let rest : 0 % base ≡ 0 = mod-eq_of_lt {n = 0} {m = base} (omega arith) in rw (short, rest)
itoa-pos fuel base (suc v) two lt =
    let more : (suc v == 0) ≡ false = ==-false_of_ne (suc v) 0 (omega arith) in
    ap (λ b. if b then some (48 ∷ []) else digits digit_char (suc (suc fuel)) base (suc v) []) more
    ∙ digits-numeral_all digit_char digit base two (λ d small. digit_char-digit d) (suc fuel)
        (suc v) (omega arith) lt

itoa-negsuc :
    (fuel base n : ℕ)
    → 2 ≤ base
    → n + 1 < 2 ^ fuel
    → itoa (suc fuel) (negsuc n) base ≡ (
        if base == 10
        then some (b'-' ∷ numeral digit fuel base (n + 1))
        else some (numeral below_zero fuel base (n + 1)))
unfolding itoa
itoa-negsuc fuel base n two lt = elim (Bool-cases (base == 10)) [
  | inl ten ↦
      let run =
        digits-numeral_all digit_char digit base two (λ d small. digit_char-digit d) fuel (n + 1)
          (omega arith) lt in
      rw ten (ap (λ (o : Option (List ℕ)). o >>= λ text. some (b'-' ∷ text)) run)
  | inr other ↦
      let run =
        digits-numeral_all negative_digit_char below_zero base two (λ d small. refl) fuel (n + 1)
          (omega arith) lt in
      rw other run
]

-- `itoa` of lib/serial.c on a word makes its text as an `int`.
pub itoa-integer :
    (w base : ℕ) → w < 2 ^ 32 → 2 ≤ base → itoa 33 (int_of w) base ≡ some (integer w base)
unfolding integer
itoa-integer w base word two = elim (Bool-cases (ltb w (2 ^ 31))) [
  | inl low ↦ rw low (itoa-pos 31 base w two (ground arith))
  | inr high ↦
      let size : 2 ^ 32 - 1 - w + 1 ≡ 2 ^ 32 - w = omega arith in
      let run = itoa-negsuc 32 base (2 ^ 32 - 1 - w) two (ground arith) in
      elim (Bool-cases (base == 10)) [
        | inl ten ↦
            rw (high, ten)
              (run
                ∙ ap
                    (λ (b : Bool).
                      if b
                      then some (b'-' ∷ numeral digit 32 base (2 ^ 32 - 1 - w + 1))
                      else some (numeral below_zero 32 base (2 ^ 32 - 1 - w + 1)))
                    ten
                ∙ ap (λ k. some (b'-' ∷ numeral digit 32 base k)) size)
        | inr other ↦
            rw (high, other)
              (run
                ∙ ap
                    (λ (b : Bool).
                      if b
                      then some (b'-' ∷ numeral digit 32 base (2 ^ 32 - 1 - w + 1))
                      else some (numeral below_zero 32 base (2 ^ 32 - 1 - w + 1)))
                    other
                ∙ ap (λ k. some (numeral below_zero 32 base k)) size)
      ]
]

ptoa_rounds :
    (fuel w : ℕ)
    → w < 2 ^ suc fuel
    → ptoa (suc (suc fuel)) w ≡ some (b'0' ∷ b'x' ∷ numeral digit (suc fuel) 16 w)
unfolding ptoa numeral
ptoa_rounds fuel zero lt = refl
ptoa_rounds fuel (suc w) lt =
    let more : (suc w == 0) ≡ false = ==-false_of_ne (suc w) 0 (omega arith) in
    ap
      (λ b.
        if b
        then some (48 ∷ 120 ∷ 48 ∷ [])
        else (digits digit_char (suc (suc fuel)) 16 (suc w) [] >>= λ text. some (48 ∷ 120 ∷ text)))
      more
    ∙ ap (λ (o : Option (List ℕ)). o >>= λ text. some (b'0' ∷ b'x' ∷ text))
        (digits-numeral_all digit_char digit 16 (omega arith) (λ d small. digit_char-digit d)
          (suc fuel) (suc w) (omega arith) lt)

-- `ptoa` writes "0x" and the number in base 16.
pub ptoa-numeral : (w : ℕ) → w < 2 ^ 32 → ptoa 33 w ≡ some (b'0' ∷ b'x' ∷ numeral digit 32 16 w)
ptoa-numeral w word = ptoa_rounds 31 w (omega arith)
