-- ===== src/CString.antt =====
-- lib/string.c: the string functions. A pointer is the buffer of bytes from it on, as a function of
-- the offset; a function that writes gives the new buffer, and the buffers of two arguments are
-- different memory. The walks over strings take fuel: `none` is a walk that used it up.
pub mod Strings
pub mod Copies
mod Tests
use nika_kernel.Prelude.{
  ℕ, zero, suc, ◌+◌, ◌-◌, Bool, not, ◌&&◌, Option, none, some, ◌==◌, ltb, if◌then◌else◌, u8,
}
use nika_kernel.Prelude.Int.{ℤ, pos, ◌-ℤ◌}
use nika_kernel.Prelude.Fallible.{◌>>=◌}

abbrev pub Buffer : Type 0
Buffer = ℕ → ℕ

-- `*(s + i) = v`
abbrev pub poke : Buffer → ℕ → ℕ → Buffer
poke s i v j = if i == j then v else s j

-- The loop of `strcmp` from offset `i` on.
unfoldable pub strcmp_from : ℕ → ℕ → Buffer → Buffer → Option ℤ
strcmp_from zero i a b = none
strcmp_from (suc fuel) i a b =
    let again = strcmp_from fuel (i + 1) a b in
    if not (a i == 0) && (a i == b i) then again else some (pos (u8 (a i)) -ℤ pos (u8 (b i)))

abbrev pub strcmp : ℕ → Buffer → Buffer → Option ℤ
strcmp fuel a b = strcmp_from fuel 0 a b

-- The second loop of `strncpy`, with `n` bytes left from `i` on.
unfoldable pub pad_from : ℕ → ℕ → Buffer → Buffer
pad_from zero i dest = dest
pad_from (suc n) i dest = pad_from n (i + 1) (poke dest i 0)

-- The first loop of `strncpy`, and then the second.
unfoldable pub strncpy_from : ℕ → ℕ → Buffer → Buffer → Buffer
unfolding pad_from
strncpy_from zero i dest src = dest
strncpy_from (suc n) i dest src =
    let onward = strncpy_from n (i + 1) (poke dest i (src i)) src in
    if src i == 0 then pad_from (suc n) i dest else onward

abbrev pub strncpy : Buffer → Buffer → ℕ → Buffer
strncpy dest src n = strncpy_from n 0 dest src

unfoldable pub strcpy_from : ℕ → ℕ → Buffer → Buffer → Option Buffer
strcpy_from zero i dest src = none
strcpy_from (suc fuel) i dest src =
    let onward = strcpy_from fuel (i + 1) (poke dest i (src i)) src in
    if src i == 0 then some (poke dest i 0) else onward

abbrev pub strcpy : ℕ → Buffer → Buffer → Option Buffer
strcpy fuel dest src = strcpy_from fuel 0 dest src

-- The outer `none` is a walk that used up its fuel, the inner one is NULL; `some i` is `str + i`.
unfoldable pub strchr_from : ℕ → ℕ → Buffer → ℕ → Option (Option ℕ)
strchr_from zero i str c = none
strchr_from (suc fuel) i str c =
    let onward = strchr_from fuel (i + 1) str c in
    if str i == 0 then some none else if str i == c then some (some i) else onward

abbrev pub strchr : ℕ → Buffer → ℕ → Option (Option ℕ)
strchr fuel str c = strchr_from fuel 0 str c

unfoldable pub strlen_from : ℕ → ℕ → Buffer → Option ℕ
strlen_from zero len str = none
strlen_from (suc fuel) len str =
    let onward = strlen_from fuel (len + 1) str in if str len == 0 then some len else onward

abbrev pub strlen : ℕ → Buffer → Option ℕ
strlen fuel str = strlen_from fuel 0 str

-- The loop of `memset`, with `size` bytes left from `i` on.
unfoldable pub memset_from : ℕ → ℕ → Buffer → ℕ → Buffer
memset_from zero i dst val = dst
memset_from (suc size) i dst val = memset_from size (i + 1) (poke dst i (u8 val)) val

abbrev pub memset : Buffer → ℕ → ℕ → Buffer
memset dst val size = memset_from size 0 dst val

-- `memcpy`, which the compiler provides.
abbrev pub memcpy : Buffer → Buffer → ℕ → Buffer
memcpy dest src n j = if ltb j n then src j else dest j
