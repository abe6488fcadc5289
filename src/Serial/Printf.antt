-- ===== src/Serial/Printf.antt =====
-- `serial_printf` of lib/serial.c sends the bytes that its format and arguments describe.
use mathlib.Core.Path.{subst}
use nika_kernel.Prelude.{
  ℕ, zero, suc, ◌+◌, ◌^◌, ◌<◌, ◌≡◌, ◌≢◌, refl, arith, ap, sym, ◌∙◌, false, inl, inr, some, List, [],
  ◌∷◌, ◌++◌, length, ◌==◌, ==_iff, ==-false_of_ne, Bool-cases,
}
use nika_kernel.Prelude.Fallible.{eq_of_some}
use nika_kernel.Io.{Log, Device}
use nika_kernel.CString.{Buffer}
use nika_kernel.CString.Strings.{IsString}
use nika_kernel.Console.Format.{IsArgument}
use nika_kernel.Serial.{serial_printf_from, serial_printf}
use nika_kernel.Serial.Bytes.{
  IsEmpty, send_all, send_all-append, format_bytes, format, IsClosed, taken, arguments-taken,
  plain-send_all, directive-piece,
}

module _ (fuel : ℕ) (device : Device) (empty : IsEmpty device) (strings : ℕ → List ℕ) (fmt : Buffer)
    (va : ℕ → ℕ) (words : (k : ℕ) → va k < 2 ^ 32) where
  -- A format from an offset on, its bytes and the run of the loop on it.
  abbrev Sends : ℕ → ℕ → ℕ → List ℕ → Log → Type 0
  Sends rounds i k cs log =
      (out : List ℕ) × (format strings va k cs ≡ some out)
      × (serial_printf_from (suc fuel) strings device rounds i fmt va k log
          ≡ some (send_all out log))

  -- One character that is no directive.
  Sends-plain :
      (rounds i k c : ℕ) (cs : List ℕ) (log : Log)
      → IsString fmt i (c ∷ cs)
      → c ≢ b'%'
      → Sends rounds (i + 1) k cs (send_all (format_bytes c) log)
      → (out : List ℕ) × (format strings va k cs ≡ some out)
        × (serial_printf_from (suc fuel) strings device (suc rounds) i fmt va k log
            ≡ some (send_all (format_bytes c ++ out) log))
  unfolding serial_printf_from
  Sends-plain rounds i k c cs log h text (out, made, run) =
      let here : fmt i ≡ c = h.0 in
      let more : (c == 0) ≡ false = ==-false_of_ne c 0 (omega (arith, h.1)) in
      (
        out,
        made,
        rw (here, more, ==-false_of_ne c 37 text, plain-send_all fuel device empty log c)
            (run ∙ ap some (sym (send_all-append (format_bytes c) out log))),
      )

  Sends-format :
      (rounds i k : ℕ) (cs : List ℕ) (log : Log)
      → IsString fmt i cs
      → length cs < rounds
      → IsClosed cs
      → Sends rounds i k cs log
  unfolding format serial_printf_from
  Sends-format zero i k cs log h room f = absurd (omega arith)
  Sends-format (suc rounds) i k [] log h room f = ([], refl, rw h)
  Sends-format (suc rounds) i k (c ∷ []) log h room f =
      let (out, made, run) =
        Sends-plain rounds i k c [] log h f
          (Sends-format rounds (i + 1) k [] (send_all (format_bytes c) log) h.3 (omega arith) tt) in
      let nothing : out ≡ [] = sym (eq_of_some made) in
      (
        format_bytes c,
        rw (==-false_of_ne c 37 f),
        run
            ∙ ap (λ (o : List ℕ). some (send_all (format_bytes c ++ o) log)) nothing
            ∙ ap some (send_all-append (format_bytes c) [] log),
      )
  Sends-format (suc rounds) i k (c ∷ d ∷ r) log h room f = elim (Bool-cases (c == b'%')) [
    | inl open_here ↦
        let percent = (==_iff c 37).0 open_here in
        let here : fmt i ≡ c = h.0 in
        let next : fmt (i + 1) ≡ d = h.3.0 in
        let more : (c == 0) ≡ false = ==-false_of_ne c 0 (omega (arith, h.1)) in
        let (a, made, sent) = directive-piece fuel device empty strings d (va k) log (words k) in
        let (b, tail, run) =
          Sends-format rounds (i + 2) (k + taken d) r (send_all a log)
            (subst (λ j. IsString fmt j r) (omega arith) h.3.3) (omega arith) (f.0 percent) in
        (
          a ++ b,
          rw (open_here, made, tail),
          rw (here, more, open_here, next, sent)
              (subst
                (λ n.
                  serial_printf_from (suc fuel) strings device rounds (i + 2) fmt va (k + n)
                    (send_all a log)
                  ≡ some (send_all (a ++ b) log))
                (sym (arguments-taken d)) (run ∙ ap some (sym (send_all-append a b log)))),
        )
    | inr plain_here ↦
        let (out, made, run) =
          Sends-plain rounds i k c (d ∷ r) log h (λ e. ground arith)
            (Sends-format rounds (i + 1) k (d ∷ r) (send_all (format_bytes c) log) h.3 (omega arith)
              (f.1 (λ e. ground arith))) in
        (format_bytes c ++ out, rw (plain_here, made), run)
  ]

-- On a line that always takes the next byte, for a format shorter than the fuel that ends in no open
-- directive and arguments that are words other than 0x80000000, whose negation as an `int` overflows,
-- `serial_printf` returns, and it has sent the bytes that the format and the strings stand for, in
-- order, each behind one look at the state of the line. A line feed of the format is sent behind a
-- carriage return, and one in a string twice behind a carriage return, as `serial_write` does.
pub serial_printf-format :
    (fuel : ℕ) (device : Device) (strings : ℕ → List ℕ) (fmt : Buffer) (va : ℕ → ℕ) (cs : List ℕ)
    (log : Log)
    → IsEmpty device
    → ((k : ℕ) → IsArgument (va k))
    → IsString fmt 0 cs
    → length cs < suc fuel
    → IsClosed cs
    → (out : List ℕ) × (format strings va 0 cs ≡ some out)
      × (serial_printf (suc fuel) strings device fmt va log ≡ some (send_all out log))
unfolding serial_printf
serial_printf-format fuel device strings fmt va cs log empty words h room f =
    Sends-format fuel device empty strings fmt va (λ k. (words k).0) (suc fuel) 0 0 cs log h room f
