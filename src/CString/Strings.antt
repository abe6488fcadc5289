-- ===== src/CString/Strings.antt =====
-- The functions of lib/string.c that read: `strcmp`, `strlen` and `strchr` of strings as lists.
use mathlib.Core.Path.{subst}
use nika_kernel.Prelude.{
  ℕ, zero, suc, ◌+◌, ◌<◌, ◌≡◌, ◌↔◌, inl, inr, refl, arith, ap, ap₂, ◌∙◌, Option, none, some, List,
  [], ◌∷◌, length, ◌==◌, ==_iff, Bool-cases, if◌then◌else◌,
}
use nika_kernel.Prelude.Int.{ℤ, pos, ◌-ℤ◌}
use nika_kernel.CString.{Buffer, strcmp_from, strcmp, strlen_from, strlen, strchr_from, strchr}

-- From offset `i` on the buffer holds the characters, and then a zero.
abbrev pub IsString : Buffer → ℕ → List ℕ → Type 0
IsString s i [] = s i ≡ 0
IsString s i (c ∷ cs) = (s i ≡ c) × (0 < c) × (c < 256) × IsString s (i + 1) cs

-- The difference at the first place where two strings differ.
abbrev pub compare : List ℕ → List ℕ → ℤ
compare [] [] = pos 0
compare [] (d ∷ ds) = pos 0 -ℤ pos d
compare (c ∷ cs) [] = pos c
compare (c ∷ cs) (d ∷ ds) = if c == d then compare cs ds else pos c -ℤ pos d

strcmp_from-compare :
    (fuel i : ℕ) (a b : Buffer) (cs ds : List ℕ)
    → IsString a i cs
    → IsString b i ds
    → length ds < fuel
    → strcmp_from fuel i a b ≡ some (compare cs ds)
unfolding strcmp_from
strcmp_from-compare zero i a b cs ds ha hb enough = absurd (omega arith)
strcmp_from-compare (suc fuel) i a b [] [] ha hb enough = rw (ha, hb)
strcmp_from-compare (suc fuel) i a b [] (d ∷ ds) ha hb enough = ground arith
strcmp_from-compare (suc fuel) i a b (c ∷ cs) [] ha hb enough = ground arith
strcmp_from-compare (suc fuel) i a b (c ∷ cs) (d ∷ ds) ha hb enough =
    ground (arith, strcmp_from-compare fuel (i + 1) a b cs ds ha.3 hb.3)

compare-zero :
    (cs ds : List ℕ) (i : ℕ) (a b : Buffer)
    → IsString a i cs
    → IsString b i ds
    → (compare cs ds ≡ pos 0)
    → (cs ≡ ds)
compare-zero [] [] i a b ha hb h = refl
compare-zero [] (d ∷ ds) i a b ha hb h = ground arith
compare-zero (c ∷ cs) [] i a b ha hb h = ground arith
compare-zero (c ∷ cs) (d ∷ ds) i a b ha hb h = elim (Bool-cases (c == d)) [
  | inl same ↦
      ap₂ (λ (k : ℕ) (ks : List ℕ). k ∷ ks) ((==_iff c d).0 same)
        (compare-zero cs ds (i + 1) a b ha.3 hb.3
          (subst (λ t. (if t then compare cs ds else pos c -ℤ pos d) ≡ pos 0) same h))
  | inr differ ↦ ground arith
]

compare_self : (cs : List ℕ) → compare cs cs ≡ pos 0
compare_self [] = refl
compare_self (c ∷ cs) = rw ((==_iff c c).1 refl, compare_self cs)

-- For two strings, with more fuel than the second is long, `strcmp` returns the difference of the
-- first characters that differ, and it returns 0 exactly when the strings are the same.
pub strcmp-compare :
    (fuel : ℕ) (a b : Buffer) (cs ds : List ℕ)
    → IsString a 0 cs
    → IsString b 0 ds
    → length ds < fuel
    → (strcmp fuel a b ≡ some (compare cs ds)) × ((compare cs ds ≡ pos 0) ↔ (cs ≡ ds))
strcmp-compare fuel a b cs ds ha hb enough = (
  strcmp_from-compare fuel 0 a b cs ds ha hb enough,
  (compare-zero cs ds 0 a b ha hb, λ e. subst (λ k. compare cs k ≡ pos 0) e (compare_self cs)),
)

strlen_from-length :
    (fuel i : ℕ) (s : Buffer) (cs : List ℕ)
    → IsString s i cs
    → length cs < fuel
    → strlen_from fuel i s ≡ some (i + length cs)
unfolding strlen_from
strlen_from-length zero i s cs h enough = absurd (omega arith)
strlen_from-length (suc fuel) i s [] h enough = rw h (ap some (omega arith))
strlen_from-length (suc fuel) i s (c ∷ cs) h enough =
    ground (arith, strlen_from-length fuel (i + 1) s cs h.3)

-- The first place of a character in a string.
abbrev pub first_at : ℕ → List ℕ → ℕ → Option ℕ
first_at i [] c = none
first_at i (d ∷ ds) c = if d == c then some i else first_at (i + 1) ds c

strchr_from-first_at :
    (fuel i : ℕ) (s : Buffer) (cs : List ℕ) (c : ℕ)
    → IsString s i cs
    → length cs < fuel
    → strchr_from fuel i s c ≡ some (first_at i cs c)
unfolding strchr_from
strchr_from-first_at zero i s cs c h enough = absurd (omega arith)
strchr_from-first_at (suc fuel) i s [] c h enough = rw h
strchr_from-first_at (suc fuel) i s (d ∷ ds) c h enough =
    ground (arith, strchr_from-first_at fuel (i + 1) s ds c h.3)

-- For a string, with more fuel than it is long, `strlen` returns its length, and `strchr` the first
-- place where the character stands, or NULL if the string does not hold it.
pub strlen-strchr :
    (fuel : ℕ) (s : Buffer) (cs : List ℕ) (c : ℕ)
    → IsString s 0 cs
    → length cs < fuel
    → (strlen fuel s ≡ some (length cs)) × (strchr fuel s c ≡ some (first_at 0 cs c))
strlen-strchr fuel s cs c h enough = (
  strlen_from-length fuel 0 s cs h enough ∙ ap some (omega arith),
  strchr_from-first_at fuel 0 s cs c h enough,
)
