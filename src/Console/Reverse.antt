-- ===== src/Console/Reverse.antt =====
-- The loop of `itoa` in lib/stdio.c that turns the text in the buffer round.
use native.Mathlib.Decide.{ℕ_discrete}
use nika_kernel.Prelude.{
  ℕ, zero, suc, ◌+◌, ◌-◌, ◌≤◌, ◌<◌, ◌≡◌, arith, ap, ◌∙◌, inl, inr, ◌&&◌, List, [], ◌∷◌, leb, ltb,
  if◌then◌else◌, Bool-cases,
}
use nika_kernel.CString.{Buffer, poke}
use nika_kernel.CString.Strings.{IsString}
use nika_kernel.Console.{reverse_ends, finish}

-- With as many rounds as the ends are apart, the bytes between them are turned round.
reverse_ends_lem :
    (fuel start end : ℕ) (buf : Buffer) (j : ℕ)
    → end < start + fuel
    → reverse_ends fuel start end buf j
      ≡ (if leb start j && leb j end then buf (start + end - j) else buf j)
unfolding reverse_ends
reverse_ends_lem zero start end buf j enough = ground arith
reverse_ends_lem (suc fuel) start end buf j enough = elim (Bool-cases (ltb start end)) [
  | inl apart ↦
      let changed = poke (poke buf start (buf end)) end (buf start) in
      let ih = reverse_ends_lem fuel (start + 1) (end - 1) changed j (ground arith) in
      let index : start + 1 + (end - 1) - j ≡ start + end - j = ground arith in
      rw apart (
        ih ∙ elim (ℕ_discrete j start) [
          | yes at_start ↦ ground (arith, ap buf {x = start + end - j} {y = end} (omega arith))
          | no _ ↦ elim (ℕ_discrete j end) [
            | yes at_end ↦ ground (arith, ap buf {x = start + end - j} {y = start} (omega arith))
            | no _ ↦ ground (arith, ap changed index)
          ]
        ])
  | inr met ↦ rw met (elim (ℕ_discrete j start) [
    | yes here ↦ elim (ℕ_discrete start end) [
      | yes same ↦ ground (arith, ap buf {x = start + end - j} {y = j} (omega arith))
      | no _ ↦ ground arith
    ]
    | no _ ↦ ground arith
  ])
]

-- The bytes before `ptr`, read backwards, are the text.
abbrev pub Backwards : Buffer → ℕ → List ℕ → Type 0
Backwards buf ptr [] = ptr ≡ 0
Backwards buf ptr (c ∷ cs) =
    (0 < ptr) × (buf (ptr - 1) ≡ c) × (0 < c) × (c < 256) × Backwards buf (ptr - 1) cs

pub Backwards-poke :
    (buf : Buffer) (ptr q v : ℕ) (cs : List ℕ)
    → ptr ≤ q
    → Backwards buf ptr cs
    → Backwards (poke buf q v) ptr cs
Backwards-poke buf ptr q v [] le h = h
Backwards-poke buf ptr q v (c ∷ cs) le h =
    (h.0, ground arith, h.2, h.3, Backwards-poke buf (ptr - 1) q v cs (omega arith) h.4)

-- A buffer that holds those bytes the other way round, and then a zero.
forwards :
    (buf turned : Buffer) (ptr q i : ℕ) (cs : List ℕ)
    → Backwards buf q cs
    → i + q ≡ ptr
    → ((j : ℕ) → j < ptr → turned j ≡ buf (ptr - 1 - j))
    → turned ptr ≡ 0
    → IsString turned i cs
forwards buf turned ptr q i [] h e turns ends = ap turned {x = i} {y = ptr} (omega arith) ∙ ends
forwards buf turned ptr q i (c ∷ cs) h e turns ends = (
  turns i (omega arith) ∙ ap buf {x = ptr - 1 - i} {y = q - 1} (omega arith) ∙ h.1,
  h.2,
  h.3,
  forwards buf turned ptr (q - 1) (i + 1) cs h.4 (omega arith) turns ends,
)

-- The text that stands backwards before `ptr` is the string that `itoa` leaves.
pub finish-IsString :
    (buf : Buffer) (ptr : ℕ) (c : ℕ) (cs : List ℕ)
    → Backwards buf ptr (c ∷ cs)
    → IsString (finish ptr buf) 0 (c ∷ cs)
finish-IsString buf ptr c cs h =
    let ended = poke buf ptr 0 in
    let turns = λ (j : ℕ). reverse_ends_lem ptr 0 (ptr - 1) ended j (omega arith) in
    forwards ended (finish ptr buf) ptr ptr 0 (c ∷ cs)
      (Backwards-poke buf ptr ptr 0 (c ∷ cs) (omega arith) h) (omega arith)
      (λ j lt.
        turns j ∙ ground (arith, ap ended {x = 0 + (ptr - 1) - j} {y = ptr - 1 - j} (omega arith)))
      (turns ptr ∙ ground arith)
