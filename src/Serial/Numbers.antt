-- ===== src/Serial/Numbers.antt =====
-- The texts that `itoa` and `ptoa` of lib/serial.c make, read back as numbers.
use native.Mathlib.Nat.{mod-lt, mod-add-div', div-lt_iff_lt-mul, pow-suc, mul-le-mul_left}
use nika_kernel.Prelude.{
  ℕ, zero, suc, ◌+◌, ◌-◌, ◌*◌, ◌/◌, ◌%◌, ◌^◌, ◌≤◌, ◌<◌, ◌≡◌, arith, ap, sym, ◌∙◌, Option, some,
  List, [], ◌∷◌, length, ◌==◌, ==_iff, ltb, if◌then◌else◌, Bool-cases, inl, inr,
}
use nika_kernel.Prelude.Fallible.{◌>>=◌}
use nika_kernel.Prelude.Int.{pos, negsuc}
use nika_kernel.Serial.{digit_char, digits, itoa, ptoa}

-- The digit of a character, and the number that a text stands for, read on from `k`.
abbrev pub char_digit : ℕ → ℕ
char_digit c = if ltb c 58 then c - 48 else c - 87

abbrev pub read_number : ℕ → ℕ → List ℕ → ℕ
read_number base k [] = k
read_number base k (c ∷ cs) = read_number base (k * base + char_digit c) cs

char_digit-digit_char : (d : ℕ) → d < 36 → char_digit (digit_char d) ≡ d
char_digit-digit_char d lt = ground arith

next_digit :
    (base v : ℕ) → 2 ≤ base → base ≤ 36 → v / base * base + char_digit (digit_char (v % base)) ≡ v
next_digit base v two few =
    let small : v % base < base = mod-lt v (omega arith) in
    ap (λ (d : ℕ). v / base * base + d) (char_digit-digit_char (v % base) (omega arith))
    ∙ omega (arith, mod-add-div' v base)

pub quotient_lt : (fuel base v : ℕ) → 2 ≤ base → v < 2 ^ suc fuel → v / base < 2 ^ fuel
quotient_lt fuel base v two lt =
    (div-lt_iff_lt-mul {k = base} {x = v} {y = 2 ^ fuel} (omega arith)).1
      (omega (arith, pow-suc 2 fuel, mul-le-mul_left (2 ^ fuel) two))

digits-read_number :
    (fuel base v : ℕ) (text : List ℕ)
    → 2 ≤ base
    → base ≤ 36
    → v < 2 ^ fuel
    → (out : List ℕ) × (digits digit_char (suc fuel) base v text ≡ some out)
      × (read_number base 0 out ≡ read_number base v text)
      × (length out ≤ fuel + length text)
unfolding digits
digits-read_number zero base v text two few lt =
    let nothing : v ≡ 0 = omega arith in
    (
      text,
      rw ((==_iff v 0).1 nothing),
      ap (λ k. read_number base k text) (sym nothing),
      omega arith,
    )
digits-read_number (suc fuel) base v text two few lt = elim (Bool-cases (v == 0)) [
  | inl done ↦
      (text, rw done, ap (λ k. read_number base k text) (sym ((==_iff v 0).0 done)), omega arith)
  | inr more ↦
      let (out, run, reads, short) =
        digits-read_number fuel base (v / base) (digit_char (v % base) ∷ text) two few
          (quotient_lt fuel base v two lt) in
      (
        out,
        rw more run,
        reads ∙ ap (λ k. read_number base k text) (next_digit base v two few),
        omega arith,
      )
]

-- The same loop, started on an empty text.
digits_all :
    (fuel base v : ℕ)
    → 2 ≤ base
    → base ≤ 36
    → v < 2 ^ fuel
    → (out : List ℕ) × (digits digit_char (suc fuel) base v [] ≡ some out)
      × (read_number base 0 out ≡ v)
      × (length out ≤ fuel)
digits_all fuel base v two few lt =
    let (out, run, reads, short) = digits-read_number fuel base v [] two few lt in
    (out, run, reads, omega arith)

itoa_pos :
    (fuel base n : ℕ)
    → 2 ≤ base
    → base ≤ 36
    → n < 2 ^ fuel
    → (out : List ℕ) × (itoa (suc fuel) (pos n) base ≡ some out)
      × (read_number base 0 out ≡ n)
      × (length out ≤ fuel + 1)
unfolding itoa
itoa_pos fuel base n two few lt =
    let (out, run, reads, short) = digits_all fuel base n two few lt in
    elim (Bool-cases (n == 0)) [
      | inl null ↦ let nothing = (==_iff n 0).0 null in (48 ∷ [], rw null, omega arith, omega arith)
      | inr more ↦ (
        out,
        ap (λ c. if c then some (48 ∷ []) else digits digit_char (suc fuel) base n []) more ∙ run,
        reads,
        omega arith,
      )
    ]

itoa_negsuc :
    (fuel n : ℕ)
    → n + 1 < 2 ^ fuel
    → (out : List ℕ) × (itoa (suc fuel) (negsuc n) 10 ≡ some (45 ∷ out))
      × (read_number 10 0 out ≡ n + 1)
      × (length out ≤ fuel)
unfolding itoa
itoa_negsuc fuel n lt =
    let (out, run, reads, short) = digits_all fuel 10 (n + 1) (omega arith) (omega arith) lt in
    (out, ap (λ (o : Option (List ℕ)). o >>= λ text. some (45 ∷ text)) run, reads, short)

pub ptoa_lem :
    (fuel n : ℕ)
    → n < 2 ^ fuel
    → (out : List ℕ) × (ptoa (suc fuel) n ≡ some (48 ∷ 120 ∷ out)) × (read_number 16 0 out ≡ n)
unfolding ptoa
ptoa_lem fuel n lt =
    let (out, run, reads, short) = digits_all fuel 16 n (omega arith) (omega arith) lt in
    elim (Bool-cases (n == 0)) [
      | inl null ↦ (48 ∷ [], rw null, sym ((==_iff n 0).0 null))
      | inr more ↦ (
        out,
        ap
              (λ c.
                if c
                then some (48 ∷ 120 ∷ 48 ∷ [])
                else (digits digit_char (suc fuel) 16 n [] >>= λ text. some (48 ∷ 120 ∷ text)))
              more
            ∙ ap (λ (o : Option (List ℕ)). o >>= λ text. some (48 ∷ 120 ∷ text)) run,
        reads,
      )
    ]

-- For a base from 2 to 36 and n + 1 below 2^fuel, `itoa` of n returns a text of at most fuel + 1
-- digits that reads back as n; `itoa` of -(n + 1) in base 10 returns a minus sign and at most
-- `fuel` digits that read back as n + 1; and `ptoa` of n returns "0x" and digits that read back as
-- n in base 16. So a fuel of 32 is enough for any `int` but the least one.
pub itoa-ptoa :
    (fuel base n : ℕ)
    → 2 ≤ base
    → base ≤ 36
    → n + 1 < 2 ^ fuel
    → ((out : List ℕ) × (itoa (suc fuel) (pos n) base ≡ some out)
        × (read_number base 0 out ≡ n)
        × (length out ≤ fuel + 1))
      × ((out : List ℕ) × (itoa (suc fuel) (negsuc n) 10 ≡ some (45 ∷ out))
          × (read_number 10 0 out ≡ n + 1)
          × (length out ≤ fuel))
      × ((out : List ℕ) × (ptoa (suc fuel) n ≡ some (48 ∷ 120 ∷ out)) × (read_number 16 0 out ≡ n))
itoa-ptoa fuel base n two few lt = (
  itoa_pos fuel base n two few (omega arith),
  itoa_negsuc fuel n lt,
  ptoa_lem fuel n (omega arith),
)
