-- ===== src/Ramfs/Names.antt =====
-- The names of the files and the paths of the mounts of fs/ramfs.c, as lists of characters.
use nika_kernel.Prelude.{
  ℕ, ◌+◌, ◌<◌, ◌≡◌, ◌≢◌, refl, arith, ap, true, false, some, List, [], ◌∷◌, length,
}
use nika_kernel.Prelude.Int.{ℤ, pos, negsuc}
use nika_kernel.CString.{Buffer, strcmp}
use nika_kernel.CString.Strings.{IsString, compare, strcmp-compare}
use nika_kernel.Ramfs.{is_zero}

-- From entry `i` on the names are strings, and these ones.
abbrev pub Named : (ℕ → Buffer) → ℕ → List (List ℕ) → Type 0
Named names i [] = Unit
Named names i (n ∷ ns) = IsString (names i) 0 n × Named names (i + 1) ns

abbrev pub Absent : List ℕ → List (List ℕ) → Type 0
Absent cs [] = Unit
Absent cs (n ∷ ns) = (n ≢ cs) × Absent cs ns

is_zero-pos : (k : ℤ) → is_zero k ≡ true → k ≡ pos 0
is_zero-pos (pos n) h = ap pos (ground arith)
is_zero-pos (negsuc n) h = ground arith

pub strcmp-same :
    (fuel : ℕ) (a b : Buffer) (cs : List ℕ)
    → IsString a 0 cs
    → IsString b 0 cs
    → length cs < fuel
    → (r : ℤ) × (strcmp fuel a b ≡ some r) × (is_zero r ≡ true)
strcmp-same fuel a b cs ha hb enough =
    let c = strcmp-compare fuel a b cs cs ha hb enough in
    (compare cs cs, c.0, ap is_zero (c.1.1 refl))

pub strcmp-differs :
    (fuel : ℕ) (a b : Buffer) (cs ds : List ℕ)
    → IsString a 0 cs
    → IsString b 0 ds
    → length ds < fuel
    → cs ≢ ds
    → (r : ℤ) × (strcmp fuel a b ≡ some r) × (is_zero r ≡ false)
strcmp-differs fuel a b cs ds ha hb enough ne =
    let c = strcmp-compare fuel a b cs ds ha hb enough in
    (compare cs ds, c.0, ground (arith, is_zero-pos (compare cs ds), c.1.0))

-- The comparison of any two strings returns.
pub strcmp-returns :
    (fuel : ℕ) (a b : Buffer) (cs ds : List ℕ)
    → IsString a 0 cs
    → IsString b 0 ds
    → length ds < fuel
    → (r : ℤ) × (strcmp fuel a b ≡ some r)
strcmp-returns fuel a b cs ds ha hb enough =
    (compare cs ds, (strcmp-compare fuel a b cs ds ha hb enough).0)
