-- ===== src/CString/Tests.antt =====
-- Runs of lib/string.c on short strings, and its theorems there.
use nika_kernel.Prelude.{
  ℕ, ◌≡◌, ◌↔◌, refl, arith, some, List, [], ◌∷◌, get_or, ltb, u8, if◌then◌else◌,
}
use nika_kernel.Prelude.Int.{pos, negsuc}
use nika_kernel.CString.{Buffer, strcmp, memset}
use nika_kernel.CString.Strings.{IsString, compare, strcmp-compare}
use nika_kernel.CString.Copies.{memset_lem}

abbrev hi : List ℕ
hi = 104 ∷ 105 ∷ []

abbrev ho : List ℕ
ho = 104 ∷ 111 ∷ []

abbrev buffer : List ℕ → Buffer
buffer cs j = get_or cs j 0

hi-IsString : IsString (buffer hi) 0 hi
hi-IsString = omega arith

ho-IsString : IsString (buffer ho) 0 ho
ho-IsString = omega arith

difference : compare hi ho ≡ negsuc 5
difference = refl

strcmp-compare_example :
    (strcmp 3 (buffer hi) (buffer ho) ≡ some (compare hi ho))
    × ((compare hi ho ≡ pos 0) ↔ (hi ≡ ho))
strcmp-compare_example =
    strcmp-compare 3 (buffer hi) (buffer ho) hi ho hi-IsString ho-IsString (omega arith)

memset_lem_example : memset (λ j. 7) 0x1ff 4 3 ≡ (if ltb 3 4 then u8 0x1ff else 7)
memset_lem_example = memset_lem (λ j. 7) 0x1ff 4 3
