-- ===== src/Boot/Printing.antt =====
-- core/init.c: the texts that the boot sequence prints, and how its steps join.
use mathlib.Core.Path.{subst}
use nika_kernel.Prelude.{ℕ, ◌≤◌, ◌<◌, ◌≡◌, sym, arith, Option, none, some, List, length}
use nika_kernel.Prelude.Fallible.{◌>>=◌, eq_of_some}
use nika_kernel.CString.Strings.{IsString}
use nika_kernel.Console.Format.{IsFormat}
use nika_kernel.Gd.{Screen}
use nika_kernel.Gd.Debug.{k_debug-Returns}
use nika_kernel.Boot.{Image, Boot, info}
use nika_kernel.Boot.Texts.{string, info_format}

-- A run that returns in a state with the property.
abbrev pub Ends : (Boot → Type 0) → Option Boot → Type 0
Ends P o = (t : Boot) × (o ≡ some t) × P t

pub bind-Ends :
    (P Q : Boot → Type 0) (o : Option Boot) (k : Boot → Option Boot)
    → Ends P o
    → ((t : Boot) → P t → Ends Q (k t))
    → Ends Q (o >>= k)
bind-Ends P Q none k e rest = absurd (ground arith)
bind-Ends P Q (some t) k e rest = rest t (subst P (sym (eq_of_some e.1)) e.2)

info_format-IsFormat :
    (fuel : ℕ) (text : List ℕ)
    → IsString (string text) 0 text
    → length text < fuel
    → IsFormat fuel (λ p. string text) (λ p. text) (λ k. 0) 0 info_format
info_format-IsFormat fuel text h room = ground (arith, h, room)

-- `INFO` with a text shorter than the fuel returns and changes the screen alone.
pub info-Ends :
    (P : Boot → Type 0) (fuel : ℕ) (img : Image) (text : List ℕ) (s : Boot)
    → 40 ≤ fuel
    → IsString (string text) 0 text
    → length text < fuel
    → ((screen : Screen) → P (record s { screen = screen }))
    → Ends P (info fuel img text s)
info-Ends P fuel img text s enough h room keep =
    let (screen, shown) =
      k_debug-Returns img.font fuel (λ p. string text) (λ p. text) (λ j. 0) (string info_format)
        (λ k. 0) info_format s.screen enough (λ n. omega arith) (omega arith) (omega arith)
        (info_format-IsFormat fuel text h room) in
    (record s { screen = screen }, rw shown, keep screen)
