-- ===== src/Console/Format.antt =====
-- `EarlyLog` of lib/stdio.c prints the text that its format and arguments describe.
use nika_kernel.Prelude.{
  ℕ, zero, suc, ◌+◌, ◌^◌, ◌≤◌, ◌<◌, ◌≡◌, ◌≢◌, refl, arith, ap, sym, ◌∙◌, inl, inr, Option, none,
  some, Bool, ◌||◌, List, [], ◌∷◌, ◌++◌, length, ◌==◌, ==_iff, ==-false_of_ne, if◌then◌else◌,
  Bool-cases, u8,
}
use nika_kernel.Prelude.Fallible.{◌>>=◌}
use nika_kernel.CString.{Buffer}
use nika_kernel.CString.Strings.{IsString}
use nika_kernel.Console.{
  Console, putchar, stdout_from, signed32, arguments, print_int, directive, early_log_from,
}
use nika_kernel.Console.Cursor.{put_text}
use nika_kernel.Console.Itoa.{magnitude, itoa_same}
use nika_kernel.Serial.Numerals.{integer, itoa-integer}

pub put_text-append : (a b : List ℕ) (s : Console) → put_text (a ++ b) s ≡ put_text b (put_text a s)
put_text-append [] b s = refl
put_text-append (c ∷ a) b s = put_text-append a b (putchar s c)

stdout_from-put_text :
    (fuel i : ℕ) (text : Buffer) (cs : List ℕ) (s : Console)
    → IsString text i cs
    → length cs < fuel
    → stdout_from fuel i text s ≡ some (put_text cs s)
unfolding stdout_from
stdout_from-put_text zero i text cs s h enough = absurd (omega arith)
stdout_from-put_text (suc fuel) i text [] s h enough = rw h
stdout_from-put_text (suc fuel) i text (c ∷ cs) s h enough =
    rw (==-false_of_ne (text i) 0 (omega (arith, h.0, h.1))) (
      stdout_from-put_text fuel (i + 1) text cs (putchar s (text i)) h.3 (omega arith)
      ∙ ap (λ k. some (put_text cs (putchar s k))) h.0)

-- The text of a word as an `int`.
abbrev int_text : ℕ → ℕ → Option (List ℕ)
int_text w base = some (integer w base)

print_int-int_text :
    (fuel : ℕ) (buf : Buffer) (w base : ℕ) (s : Console)
    → 40 ≤ fuel
    → w < 2 ^ 32
    → 2 ≤ base
    → base ≤ 36
    → (out : List ℕ) × (int_text w base ≡ some out)
      × (print_int fuel buf w base s ≡ some (put_text out s))
print_int-int_text fuel buf w base s enough word two few =
    let small : magnitude (signed32 w) < 2 ^ 32 = ground arith in
    let (b, text, filled, made, string, short) =
      itoa_same 32 base (signed32 w) buf two few (omega arith) small in
    (
      text,
      sym (itoa-integer w base word two) ∙ made,
      rw filled (stdout_from-put_text fuel 0 b text s string (omega arith)),
    )

-- The text that a directive stands for, with the string at each pointer.
abbrev pub piece : (ℕ → List ℕ) → ℕ → ℕ → Option (List ℕ)
piece strings d w =
    if d == b's'
    then some (strings w)
    else if d == b'c'
    then some (u8 w ∷ [])
    else if d == b'd'
    then int_text w 10
    else if d == b'x'
    then int_text w 16
    else if d == b'p'
    then (int_text w 16 >>= λ t. some (b'0' ∷ b'x' ∷ t))
    else if d == b'%'
    then some (b'%' ∷ [])
    else some (b'?' ∷ [])

-- The pointer of an `%s` leads to its string.
abbrev pub IsReadable : ℕ → (ℕ → Buffer) → (ℕ → List ℕ) → ℕ → ℕ → Type 0
IsReadable fuel text_at strings d w =
    d ≡ b's' → IsString (text_at w) 0 (strings w) × (length (strings w) < fuel)

pub directive-piece :
    (fuel : ℕ) (text_at : ℕ → Buffer) (strings : ℕ → List ℕ) (buf : Buffer) (d w : ℕ) (s : Console)
    → 40 ≤ fuel
    → w < 2 ^ 32
    → IsReadable fuel text_at strings d w
    → (out : List ℕ) × (piece strings d w ≡ some out)
      × (directive fuel text_at buf d w s ≡ some (put_text out s))
unfolding directive
directive-piece fuel text_at strings buf d w s enough word readable =
    elim (Bool-cases (d == b's')) [
      | inl is_s ↦
          let r = readable ((==_iff d 115).0 is_s) in
          (
            strings w,
            rw is_s,
            rw is_s (stdout_from-put_text fuel 0 (text_at w) (strings w) s r.0 r.1),
          )
      | inr not_s ↦ elim (Bool-cases (d == b'c')) [
        | inl is_c ↦ (u8 w ∷ [], rw (not_s, is_c), rw (not_s, is_c))
        | inr not_c ↦ elim (Bool-cases (d == b'd')) [
          | inl is_d ↦
              let (out, made, printed) =
                print_int-int_text fuel buf w 10 s enough word (omega arith) (omega arith) in
              (out, rw (not_s, not_c, is_d) made, rw (not_s, not_c, is_d) printed)
          | inr not_d ↦ elim (Bool-cases (d == b'x')) [
            | inl is_x ↦
                let (out, made, printed) =
                  print_int-int_text fuel buf w 16 s enough word (omega arith) (omega arith) in
                (out, rw (not_s, not_c, not_d, is_x) made, rw (not_s, not_c, not_d, is_x) printed)
            | inr not_x ↦ elim (Bool-cases (d == b'p')) [
              | inl is_p ↦
                  let (out, made, printed) =
                    print_int-int_text fuel buf w 16 (putchar (putchar s b'0') b'x') enough word
                      (omega arith) (omega arith) in
                  (
                    b'0' ∷ b'x' ∷ out,
                    rw (not_s, not_c, not_d, not_x, is_p)
                        (ap (λ (o : Option (List ℕ)). o >>= λ t. some (b'0' ∷ b'x' ∷ t)) made),
                    rw (not_s, not_c, not_d, not_x, is_p) printed,
                  )
              | inr not_p ↦ elim (Bool-cases (d == b'%')) [
                | inl is_percent ↦ (
                  b'%' ∷ [],
                  rw (not_s, not_c, not_d, not_x, not_p, is_percent),
                  rw (not_s, not_c, not_d, not_x, not_p, is_percent),
                )
                | inr other ↦ (
                  b'?' ∷ [],
                  rw (not_s, not_c, not_d, not_x, not_p, other),
                  rw (not_s, not_c, not_d, not_x, not_p, other),
                )
              ]
            ]
          ]
        ]
      ]
    ]

-- The directives that take an argument.
abbrev pub takes_argument : ℕ → Bool
takes_argument d = (d == b's') || (d == b'c') || (d == b'd') || (d == b'x') || (d == b'p')

abbrev pub taken : ℕ → ℕ
taken d = if takes_argument d then 1 else 0

pub arguments-taken : (d : ℕ) → arguments d ≡ taken d
arguments-taken d = ground arith

-- A word whose negation as an `int` does not overflow.
abbrev pub IsArgument : ℕ → Type 0
IsArgument w = (w < 2 ^ 32) × (w ≢ 0x80000000)

-- The text that a format stands for, with the arguments from `va k` on; none when it ends in an open
-- directive.
unfoldable pub format : (ℕ → List ℕ) → (ℕ → ℕ) → ℕ → List ℕ → Option (List ℕ)
format strings va k [] = some []
format strings va k (c ∷ []) = if c == b'%' then none else some (c ∷ [])
format strings va k (c ∷ d ∷ r) =
    let directed = (do
      a ← piece strings d (va k)
      b ← format strings va (k + taken d) r
      some (a ++ b)) in
    let plain = (do b ← format strings va k (d ∷ r); some (c ∷ b)) in
    if c == b'%' then directed else plain

-- No directive is open at the end, and the pointers for `%s` lead to strings.
abbrev pub IsFormat : ℕ → (ℕ → Buffer) → (ℕ → List ℕ) → (ℕ → ℕ) → ℕ → List ℕ → Type 0
IsFormat fuel text_at strings va k [] = Unit
IsFormat fuel text_at strings va k (c ∷ []) = c ≢ b'%'
IsFormat fuel text_at strings va k (c ∷ d ∷ r) =
    (c ≡ b'%'
      → IsReadable fuel text_at strings d (va k) × IsFormat fuel text_at strings va (k + taken d) r)
    × (c ≢ b'%' → IsFormat fuel text_at strings va k (d ∷ r))

-- A format and its text, and the run of the loop on it.
abbrev pub Prints :
    ℕ
    → (ℕ → Buffer)
    → (ℕ → List ℕ)
    → Buffer
    → ℕ
    → ℕ
    → Buffer
    → (ℕ → ℕ)
    → ℕ
    → List ℕ
    → Console
    → Type 0
Prints fuel text_at strings buf rounds i fmt va k cs s =
    (out : List ℕ) × (format strings va k cs ≡ some out)
    × (early_log_from fuel text_at buf rounds i fmt va k s ≡ some (put_text out s))
