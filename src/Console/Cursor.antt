-- ===== src/Console/Cursor.antt =====
-- The cursor and the cells of the text screen of lib/stdio.c.
use nika_kernel.Prelude.{ℕ, ◌+◌, ◌≤◌, ◌<◌, ◌≡◌, ◌⊎◌, refl, arith, ◌∙◌, List, [], ◌∷◌}
use nika_kernel.Console.{Console, putchar}

-- The cursor stands on the screen.
pub record IsOnPage (s : Console) : Type 0 where
  pub column : s.x < 80
  pub row : s.y < 25

abbrev pub put_text : List ℕ → Console → Console
put_text [] s = s
put_text (c ∷ cs) s = put_text cs (putchar s c)

pub putchar-IsOnPage : (s : Console) (c : ℕ) → IsOnPage s → IsOnPage (putchar s c)
unfolding putchar
putchar-IsOnPage s c h = ground arith

putchar-cell :
    (s : Console) (c a : ℕ)
    → IsOnPage s
    → (a < 0xb8000) ⊎ (0xb8000 + 4000 ≤ a)
    → (putchar s c).cell a ≡ s.cell a
unfolding putchar
putchar-cell s c a h out = ground arith

-- From a cursor on the screen of 80 columns and 25 rows, text of any length leaves it there, and
-- changes no memory outside its 4000 bytes from 0xb8000 on.
pub put_text-IsOnPage :
    (cs : List ℕ) (s : Console)
    → IsOnPage s
    → IsOnPage (put_text cs s)
      × ((a : ℕ) → (a < 0xb8000) ⊎ (0xb8000 + 4000 ≤ a) → (put_text cs s).cell a ≡ s.cell a)
put_text-IsOnPage [] s h = (h, λ a out. refl)
put_text-IsOnPage (c ∷ cs) s h =
    let (kept, same) = put_text-IsOnPage cs (putchar s c) (putchar-IsOnPage s c h) in
    (kept, λ a out. same a out ∙ putchar-cell s c a h out)
