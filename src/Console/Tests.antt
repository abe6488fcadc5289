-- ===== src/Console/Tests.antt =====
-- Runs of lib/stdio.c, and its theorems on texts there.
use nika_kernel.Prelude.{ℕ, ◌+◌, ◌≤◌, ◌<◌, ◌≡◌, ◌⊎◌, refl, arith, some, List, [], ◌∷◌, get_or}
use nika_kernel.Prelude.Int.{negsuc}
use nika_kernel.CString.{Buffer}
use nika_kernel.CString.Strings.{IsString}
use nika_kernel.Serial
use nika_kernel.Console.{Console, putchar, itoa, early_log}
use nika_kernel.Console.Cursor.{IsOnPage, put_text, put_text-IsOnPage}
use nika_kernel.Console.Itoa.{SameText, itoa_same}
use nika_kernel.Console.Format.{format, IsFormat}
use nika_kernel.Console.Log.{early_log-format}
use nika_kernel.Serial.Numerals.{integer, numeral}

-- The cursor in the last column of the last row.
abbrev last_place : Console
last_place = record { cell = λ a. 0; vga = 0xb8000; x = 79; y = 24 }

last_place-IsOnPage : IsOnPage last_place
last_place-IsOnPage = record { column = omega arith; row = omega arith }

wraps_to_the_top : (putchar last_place b'A').y ≡ 0
unfolding putchar
wraps_to_the_top = refl

-- A white letter on black.
letter : (putchar last_place b'A').cell (0xb8000 + 3998) ≡ 0x0f41
unfolding putchar
letter = refl

put_text-IsOnPage_example :
    IsOnPage (put_text (72 ∷ 10 ∷ 105 ∷ []) last_place)
    × ((a : ℕ)
        → (a < 0xb8000) ⊎ (0xb8000 + 4000 ≤ a)
        → (put_text (72 ∷ 10 ∷ 105 ∷ []) last_place).cell a ≡ last_place.cell a)
put_text-IsOnPage_example = put_text-IsOnPage (72 ∷ 10 ∷ 105 ∷ []) last_place last_place-IsOnPage

itoa_same_example : SameText (itoa 32 (negsuc 41) (λ j. 7) 10) (Serial.itoa 33 (negsuc 41) 10) 33
itoa_same_example =
    itoa_same 32 10 (negsuc 41) (λ j. 7) (omega arith) (omega arith) (omega arith) (omega arith)

-- The characters of "%d%%\n".
abbrev percentage : List ℕ
percentage = 37 ∷ 100 ∷ 37 ∷ 37 ∷ 10 ∷ []

abbrev percentage_text : Buffer
percentage_text j = get_or percentage j 0

percentage-IsString : IsString percentage_text 0 percentage
percentage-IsString = omega arith

percentage-IsFormat : IsFormat 50 (λ p j. 0) (λ p. []) (λ k. 42) 0 percentage
percentage-IsFormat = ground arith

forty_two_percent : format (λ p. []) (λ k. 42) 0 percentage ≡ some (52 ∷ 50 ∷ 37 ∷ 10 ∷ [])
unfolding format integer numeral
forty_two_percent = refl

early_log-format_example :
    (out : List ℕ) × (format (λ p. []) (λ k. 42) 0 percentage ≡ some out)
    × (early_log 50 (λ p j. 0) (λ j. 7) percentage_text (λ k. 42) last_place
        ≡ some (put_text out last_place))
early_log-format_example =
    early_log-format 50 (λ p j. 0) (λ p. []) (λ j. 7) percentage_text (λ k. 42) percentage
      last_place (omega arith) (λ k. omega arith) percentage-IsString (omega arith)
      percentage-IsFormat
