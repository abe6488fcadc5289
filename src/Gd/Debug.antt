-- ===== src/Gd/Debug.antt =====
-- drivers/gd.c: `kDebug` returns.
use mathlib.Core.Path.{subst}
use nika_kernel.Prelude.{
  ℕ, zero, suc, ◌+◌, ◌^◌, ◌≤◌, ◌<◌, ◌≡◌, sym, arith, inl, inr, true, false, some, List, [], ◌∷◌,
  length, ◌==◌, ==_iff, ==-false_of_ne, Bool-cases,
}
use nika_kernel.Prelude.Returns.{Returns, returns_rules}
use nika_kernel.CString.{Buffer}
use nika_kernel.CString.Strings.{IsString}
use nika_kernel.Console.{signed32, arguments}
use nika_kernel.Console.Itoa.{magnitude, itoa_same}
use nika_kernel.Console.Format.{IsReadable, IsFormat, arguments-taken}
use nika_kernel.Gd.{Screen}
use nika_kernel.Gd.Text.{
  Font, gdl_putchar, put_string, debug_char, debug_int, directive, k_debug_from, k_debug,
}

put_string-Returns :
    (font : Font) (fuel i : ℕ) (text : Buffer) (cs : List ℕ) (s : Screen)
    → IsString text i cs
    → length cs < fuel
    → Returns (put_string font fuel i text s)
unfolding put_string
put_string-Returns font zero i text cs s h enough = absurd (omega arith)
put_string-Returns font (suc fuel) i text [] s h enough = record { value = s; runs = rw h }
put_string-Returns font (suc fuel) i text (c ∷ cs) s h enough =
    let more : (text i == 0) ≡ false = ==-false_of_ne (text i) 0 (omega (arith, h.0, h.1)) in
    let rest =
      put_string-Returns font fuel (i + 1) text cs (gdl_putchar font s (text i)) h.3
        (omega arith) in
    record { value = rest.value; runs = rw more rest.runs }

debug_int-Returns :
    (font : Font) (fuel : ℕ) (buf : Buffer) (w base : ℕ) (s : Screen)
    → 40 ≤ fuel
    → w < 2 ^ 32
    → 2 ≤ base
    → base ≤ 36
    → Returns (debug_int font fuel buf w base s)
debug_int-Returns font fuel buf w base s enough word two few =
    let small : magnitude (signed32 w) < 2 ^ 32 = ground arith in
    let (b, text, filled, made, string, short) =
      itoa_same 32 base (signed32 w) buf two few (omega arith) small in
    let shown = put_string-Returns font fuel 0 b text s string (omega arith) in
    record { value = shown.value; runs = rw filled shown.runs }

module _ (font : Font) (fuel : ℕ) (text_at : ℕ → Buffer) (strings : ℕ → List ℕ) (buf : Buffer)
    (enough : 40 ≤ fuel) where
  directive-Returns :
      (d w : ℕ) (s : Screen)
      → w < 2 ^ 32
      → IsReadable fuel text_at strings d w
      → Returns (directive font fuel text_at buf d w s)
  unfolding directive
  directive-Returns d w s word readable =
      let decimal = λ (t : Screen).
        debug_int-Returns font fuel buf w 10 t enough word (omega arith) (omega arith) in
      let hexadecimal = λ (t : Screen).
        debug_int-Returns font fuel buf w 16 t enough word (omega arith) (omega arith) in
      let string : (d == b's') ≡ true → Returns (put_string font fuel 0 (text_at w) s) = λ is_s.
        let r = readable ((==_iff d b's').0 is_s) in
        put_string-Returns font fuel 0 (text_at w) (strings w) s r.0 r.1 in
      search (returns_rules, decimal, hexadecimal, string) depth 16

  k_debug_from-Returns :
      (fmt : Buffer) (va : ℕ → ℕ) (rounds i k : ℕ) (cs : List ℕ) (s : Screen)
      → ((n : ℕ) → va n < 2 ^ 32)
      → IsString fmt i cs
      → length cs < rounds
      → IsFormat fuel text_at strings va k cs
      → Returns (k_debug_from font fuel text_at buf rounds i fmt va k s)
  unfolding k_debug_from
  k_debug_from-Returns fmt va zero i k cs s words h room f = absurd (omega arith)
  k_debug_from-Returns fmt va (suc rounds) i k [] s words h room f = record {
    value = s;
    runs = rw h;
  }
  k_debug_from-Returns fmt va (suc rounds) i k (c ∷ []) s words h room f =
      let here : fmt i ≡ c = h.0 in
      let more : (c == 0) ≡ false = ==-false_of_ne c 0 (omega (arith, h.1)) in
      let rest =
        k_debug_from-Returns fmt va rounds (i + 1) k [] (debug_char font s c) words h.3
          (omega arith) tt in
      record { value = rest.value; runs = rw (here, more, ==-false_of_ne c 37 f) rest.runs }
  k_debug_from-Returns fmt va (suc rounds) i k (c ∷ d ∷ r) s words h room f =
      let here : fmt i ≡ c = h.0 in
      let more : (c == 0) ≡ false = ==-false_of_ne c 0 (omega (arith, h.1)) in
      elim (Bool-cases (c == b'%')) [
        | inl open_here ↦
            let (readable, rest) = f.0 ((==_iff c 37).0 open_here) in
            let next : fmt (i + 1) ≡ d = h.3.0 in
            let printed = directive-Returns d (va k) s (words k) readable in
            let onward =
              k_debug_from-Returns fmt va rounds (i + 2) (k + arguments d) r printed.value words
                (subst (λ j. IsString fmt j r) (omega arith) h.3.3) (omega arith)
                (subst (λ n. IsFormat fuel text_at strings va (k + n) r) (sym (arguments-taken d))
                  rest) in
            record {
              value = onward.value;
              runs = rw (here, more, open_here, next, printed.runs) onward.runs;
            }
        | inr plain ↦
            let onward =
              k_debug_from-Returns fmt va rounds (i + 1) k (d ∷ r) (debug_char font s c) words h.3
                (omega arith) (f.1 (λ e. ground arith)) in
            record { value = onward.value; runs = rw (here, more, plain) onward.runs }
      ]

-- With at least 40 rounds of fuel, when the format and each string that it takes are shorter than the fuel, the format ends in no open
-- directive and each argument is a word, `kDebug` returns, whatever the state of the screen.
pub k_debug-Returns :
    (font : Font) (fuel : ℕ) (text_at : ℕ → Buffer) (strings : ℕ → List ℕ) (buf fmt : Buffer)
    (va : ℕ → ℕ) (cs : List ℕ) (s : Screen)
    → 40 ≤ fuel
    → ((n : ℕ) → va n < 2 ^ 32)
    → IsString fmt 0 cs
    → length cs < fuel
    → IsFormat fuel text_at strings va 0 cs
    → (t : Screen) × (k_debug font fuel text_at buf fmt va s ≡ some t)
unfolding k_debug
k_debug-Returns font fuel text_at strings buf fmt va cs s enough words h room f =
    let shown =
      k_debug_from-Returns font fuel text_at strings buf enough fmt va fuel 0 0 cs s words h room
        f in
    (shown.value, shown.runs)
