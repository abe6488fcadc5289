-- ===== src/Console/Log.antt =====
-- The loop of `EarlyLog` in lib/stdio.c over a whole format.
use mathlib.Core.Path.{subst}
use nika_kernel.Prelude.{
  ℕ, zero, suc, ◌+◌, ◌^◌, ◌≤◌, ◌<◌, ◌≡◌, ◌≢◌, refl, arith, ap, sym, ◌∙◌, false, inl, inr, Option,
  some, List, [], ◌∷◌, ◌++◌, length, ◌==◌, ==_iff, ==-false_of_ne, Bool-cases,
}
use nika_kernel.Prelude.Fallible.{eq_of_some}
use nika_kernel.CString.{Buffer}
use nika_kernel.CString.Strings.{IsString}
use nika_kernel.Console.{Console, putchar, directive, early_log_from, early_log}
use nika_kernel.Console.Cursor.{put_text}
use nika_kernel.Console.Format.{
  put_text-append, directive-piece, format, taken, arguments-taken, IsArgument, IsFormat, Prints,
}

module _ (fuel : ℕ) (text_at : ℕ → Buffer) (strings : ℕ → List ℕ) (buf fmt : Buffer) (va : ℕ → ℕ)
    (enough : 40 ≤ fuel) (words : (k : ℕ) → va k < 2 ^ 32) where
  -- One character that is no directive.
  Prints-plain :
      (rounds i k c : ℕ) (cs : List ℕ) (s : Console)
      → IsString fmt i (c ∷ cs)
      → c ≢ b'%'
      → Prints fuel text_at strings buf rounds (i + 1) fmt va k cs (putchar s c)
      → (out : List ℕ) × (format strings va k cs ≡ some out)
        × (early_log_from fuel text_at buf (suc rounds) i fmt va k s ≡ some (put_text (c ∷ out) s))
  unfolding early_log_from
  Prints-plain rounds i k c cs s h plain (out, made, run) =
      let here : fmt i ≡ c = h.0 in
      let more : (c == 0) ≡ false = ==-false_of_ne c 0 (omega (arith, h.1)) in
      let text : (c == b'%') ≡ false = ==-false_of_ne c 37 plain in
      (out, made, rw (here, more, text) run)

  -- A directive, and the run behind it.
  early_log_from-directive :
      (rounds i k d : ℕ) (s t : Console) (end : Option Console)
      → fmt i ≡ b'%'
      → fmt (i + 1) ≡ d
      → directive fuel text_at buf d (va k) s ≡ some t
      → early_log_from fuel text_at buf rounds (i + 2) fmt va (k + taken d) t ≡ end
      → early_log_from fuel text_at buf (suc rounds) i fmt va k s ≡ end
  unfolding early_log_from
  early_log_from-directive rounds i k d s t end percent next printed run =
      rw (percent, next, printed)
        (subst (λ n. early_log_from fuel text_at buf rounds (i + 2) fmt va (k + n) t ≡ end)
          (sym (arguments-taken d)) run)

  Prints-format :
      (rounds i k : ℕ) (cs : List ℕ) (s : Console)
      → IsString fmt i cs
      → length cs < rounds
      → IsFormat fuel text_at strings va k cs
      → Prints fuel text_at strings buf rounds i fmt va k cs s
  unfolding format early_log_from
  Prints-format zero i k cs s h room f = absurd (omega arith)
  Prints-format (suc rounds) i k [] s h room f = ([], refl, rw h)
  Prints-format (suc rounds) i k (c ∷ []) s h room f =
      let text : (c == b'%') ≡ false = ==-false_of_ne c 37 f in
      let (out, made, run) =
        Prints-plain rounds i k c [] s h f
          (Prints-format rounds (i + 1) k [] (putchar s c) h.3 (omega arith) tt) in
      let nothing : out ≡ [] = sym (eq_of_some made) in
      (c ∷ [], rw text, run ∙ ap (λ (o : List ℕ). some (put_text (c ∷ o) s)) nothing)
  Prints-format (suc rounds) i k (c ∷ d ∷ r) s h room f = elim (Bool-cases (c == b'%')) [
    | inl open_here ↦
        let percent = (==_iff c 37).0 open_here in
        let (readable, rest) = f.0 percent in
        let (a, made, printed) =
          directive-piece fuel text_at strings buf d (va k) s enough (words k) readable in
        let (b, tail, run) =
          Prints-format rounds (i + 2) (k + taken d) r (put_text a s)
            (subst (λ j. IsString fmt j r) (omega arith) h.3.3) (omega arith) rest in
        (
          a ++ b,
          rw (open_here, made, tail),
          early_log_from-directive rounds i k d s (put_text a s) (some (put_text (a ++ b) s))
              (h.0 ∙ percent) h.3.0 printed (run ∙ ap some (sym (put_text-append a b s))),
        )
    | inr plain ↦
        let (out, made, run) =
          Prints-plain rounds i k c (d ∷ r) s h (λ e. ground arith)
            (Prints-format rounds (i + 1) k (d ∷ r) (putchar s c) h.3 (omega arith)
              (f.1 (λ e. ground arith))) in
        (c ∷ out, rw (plain, made), run)
  ]

-- With at least 40 rounds of fuel, when the format and each string that it takes are shorter than the
-- fuel, the format ends in no open directive and each argument is a word other than 0x80000000, whose
-- negation as an `int` overflows, `EarlyLog` returns, and it has put the text on the screen that the
-- format stands for, character by character.
pub early_log-format :
    (fuel : ℕ) (text_at : ℕ → Buffer) (strings : ℕ → List ℕ) (buf fmt : Buffer) (va : ℕ → ℕ)
    (cs : List ℕ) (s : Console)
    → 40 ≤ fuel
    → ((k : ℕ) → IsArgument (va k))
    → IsString fmt 0 cs
    → length cs < fuel
    → IsFormat fuel text_at strings va 0 cs
    → (out : List ℕ) × (format strings va 0 cs ≡ some out)
      × (early_log fuel text_at buf fmt va s ≡ some (put_text out s))
unfolding early_log
early_log-format fuel text_at strings buf fmt va cs s enough words h room f =
    Prints-format fuel text_at strings buf fmt va enough (λ k. (words k).0) fuel 0 0 cs s h room f
