-- ===== src/CString/Copies.antt =====
-- The functions of lib/string.c that write: `strncpy`, `strcpy` and `memset`.
use nika_kernel.Prelude.{
  ℕ, zero, suc, ◌+◌, ◌-◌, ◌<◌, ◌≡◌, ◌⊎◌, inl, inr, refl, arith, ap, ◌∙◌, some, List, [], ◌∷◌,
  length, get_or, ltb, leb, ==-false_of_ne, if◌then◌else◌, u8,
}
use nika_kernel.CString.{
  Buffer, poke, pad_from, strncpy_from, strncpy, strcpy_from, strcpy, memset_from, memset,
}
use nika_kernel.CString.Strings.{IsString}

memset_from-lem :
    (n i : ℕ) (dst : Buffer) (val j : ℕ)
    → memset_from n i dst val j
      ≡ (if leb i j then (if ltb j (i + n) then u8 val else dst j) else dst j)
unfolding memset_from
memset_from-lem zero i dst val j = ground arith
memset_from-lem (suc n) i dst val j =
    memset_from-lem n (i + 1) (poke dst i (u8 val)) val j ∙ ground arith

-- `memset` writes the low byte of `val` to each of the first `size` bytes, and to no other.
pub memset_lem :
    (dst : Buffer) (val size j : ℕ) → memset dst val size j ≡ (if ltb j size then u8 val else dst j)
memset_lem dst val size j = memset_from-lem size 0 dst val j ∙ ground arith

pad_from-lem :
    (n i : ℕ) (dest : Buffer) (j : ℕ)
    → pad_from n i dest j ≡ (if leb i j then (if ltb j (i + n) then 0 else dest j) else dest j)
unfolding pad_from
pad_from-lem zero i dest j = ground arith
pad_from-lem (suc n) i dest j = pad_from-lem n (i + 1) (poke dest i 0) j ∙ ground arith

cons_at :
    (c : ℕ) (cs : List ℕ) (j i : ℕ)
    → get_or (c ∷ cs) (j - i) 0 ≡ (if leb j i then c else get_or cs (j - (i + 1)) 0)
cons_at c cs j i = shift (j - i) refl
  where
    shift :
        (k : ℕ)
        → k ≡ j - i
        → get_or (c ∷ cs) k 0 ≡ (if leb j i then c else get_or cs (j - (i + 1)) 0)
    shift zero e = ground arith
    shift (suc k) e = ap (λ m. get_or cs m 0) {x = k} {y = j - (i + 1)} (omega arith) ∙ ground arith

get_or_at : (cs : List ℕ) (j : ℕ) → get_or cs (j - 0) 0 ≡ get_or cs j 0
get_or_at cs j = ap (λ m. get_or cs m 0) {x = j - 0} {y = j} (omega arith)

-- What `strncpy` leaves from offset `i` on.
strncpy_from-lem :
    (n i : ℕ) (dest src : Buffer) (cs : List ℕ) (j : ℕ)
    → IsString src i cs
    → strncpy_from n i dest src j
      ≡ (if leb i j then (if ltb j (i + n) then get_or cs (j - i) 0 else dest j) else dest j)
unfolding strncpy_from
strncpy_from-lem zero i dest src cs j h = ground arith
strncpy_from-lem (suc n) i dest src [] j h = rw h (pad_from-lem (suc n) i dest j)
strncpy_from-lem (suc n) i dest src (c ∷ cs) j h =
    rw (==-false_of_ne (src i) 0 (omega (arith, h.0, h.1))) (
      strncpy_from-lem n (i + 1) (poke dest i (src i)) src cs j h.3
      ∙ ground (arith, cons_at c cs j i, h.0))

-- For a string, `strncpy` writes its first characters to the first `n` bytes, with zeros behind its
-- end, and no other byte: without a zero when it has `n` characters or more.
pub strncpy_lem :
    (dest src : Buffer) (n : ℕ) (cs : List ℕ)
    → IsString src 0 cs
    → (j : ℕ) → strncpy dest src n j ≡ (if ltb j n then get_or cs j 0 else dest j)
strncpy_lem dest src n cs h j =
    strncpy_from-lem n 0 dest src cs j h ∙ ground (arith, get_or_at cs j)

strcpy_from-lem :
    (fuel i : ℕ) (dest src : Buffer) (cs : List ℕ)
    → IsString src i cs
    → length cs < fuel
    → (t : Buffer) × (strcpy_from fuel i dest src ≡ some t)
      × IsString t i cs
      × ((j : ℕ) → (j < i) ⊎ (i + length cs < j) → t j ≡ dest j)
unfolding strcpy_from
strcpy_from-lem zero i dest src cs h enough = absurd (omega arith)
strcpy_from-lem (suc fuel) i dest src [] h enough =
    (poke dest i 0, rw h refl, ground arith, λ j out. ground arith)
strcpy_from-lem (suc fuel) i dest src (c ∷ cs) h enough =
    let (t, run, copied, kept) =
      strcpy_from-lem fuel (i + 1) (poke dest i (src i)) src cs h.3 (omega arith) in
    (
      t,
      rw (==-false_of_ne (src i) 0 (omega (arith, h.0, h.1))) run,
      (kept i (inl (omega arith)) ∙ ground (arith, h.0), h.1, h.2, copied),
      λ j out. kept j (omega arith) ∙ ground arith,
    )

-- For a string, with more fuel than it is long, `strcpy` returns, `dest` then holds that string,
-- and no byte behind its zero has changed.
pub strcpy_lem :
    (fuel : ℕ) (dest src : Buffer) (cs : List ℕ)
    → IsString src 0 cs
    → length cs < fuel
    → (t : Buffer) × (strcpy fuel dest src ≡ some t)
      × IsString t 0 cs
      × ((j : ℕ) → length cs < j → t j ≡ dest j)
strcpy_lem fuel dest src cs h enough =
    let (t, run, copied, kept) = strcpy_from-lem fuel 0 dest src cs h enough in
    (t, run, copied, λ j out. kept j (inr (omega arith)))
