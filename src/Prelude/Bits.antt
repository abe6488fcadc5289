-- ===== src/Prelude/Bits.antt =====
-- The bitwise operations at variables: each splits at any width into its high and low parts, so
-- that masks and disjoint fields become sums, quotients and remainders.
use Prim.Native.Nat.{digits, bit_and-bitwise, bit_or-bitwise}
use native.Mathlib.Nat.{
  le_refl, pow-suc, one-le-pow, div-div-eq-div-mul, div-add-mod', mod-lt, mod-eq_of_lt, mod-one,
  div-one, add-mul-mod_self_right, mul-div_cancel, div-eq_of_lt, mul-mod_left,
}
use nika_kernel.Prelude.{
  ℕ, zero, suc, ◌+◌, ◌-◌, ◌*◌, ◌/◌, ◌%◌, ◌^◌, ◌≤◌, ◌<◌, ◌≡◌, refl, ap, ap₂, ◌∙◌, arith, min, max,
  bit_and, bit_or,
}

-- More fuel than the first operand needs changes nothing.
digits_enough :
    (z : ℕ → ℕ) (f : ℕ → ℕ → ℕ) (n m a b : ℕ) → a ≤ n → a ≤ m → digits z f n a b ≡ digits z f m a b
digits_enough z f zero zero a b h k = refl
digits_enough z f zero (suc m) zero b h k = refl
digits_enough z f zero (suc m) (suc a) b h k = absurd (omega arith)
digits_enough z f (suc n) zero zero b h k = refl
digits_enough z f (suc n) zero (suc a) b h k = absurd (omega arith)
digits_enough z f (suc n) (suc m) zero b h k = refl
digits_enough z f (suc n) (suc m) (suc a) b h k =
    ap (λ (t : ℕ). t * 2 + f (suc a % 2) (b % 2))
      (digits_enough z f n m (suc a / 2) (b / 2) (omega arith) (omega arith))

pub bit_or-halves : (a b : ℕ) → bit_or a b ≡ bit_or (a / 2) (b / 2) * 2 + max (a % 2) (b % 2)
bit_or-halves zero b = simp bit_or-bitwise (omega arith)
bit_or-halves (suc a) b = omega (
  arith,
  bit_or-bitwise (suc a) b,
  bit_or-bitwise (suc a / 2) (b / 2),
  digits_enough (λ y. y) max a (suc a / 2) (suc a / 2) (b / 2) (omega arith) (le_refl _),
)

pub bit_and-halves : (a b : ℕ) → bit_and a b ≡ bit_and (a / 2) (b / 2) * 2 + min (a % 2) (b % 2)
bit_and-halves zero b = simp bit_and-bitwise (omega arith)
bit_and-halves (suc a) b = omega (
  arith,
  bit_and-bitwise (suc a) b,
  bit_and-bitwise (suc a / 2) (b / 2),
  digits_enough (λ y. 0) min a (suc a / 2) (suc a / 2) (b / 2) (omega arith) (le_refl _),
)

zero_laws_below :
    (n a : ℕ) → a ≤ n → (bit_or a 0 ≡ a) × (bit_or 0 a ≡ a) × (bit_and a 0 ≡ 0) × (bit_and 0 a ≡ 0)
zero_laws_below n zero h = (refl, refl, refl, refl)
zero_laws_below zero (suc a) h = absurd (omega arith)
zero_laws_below (suc n) (suc a) h =
    let rest = zero_laws_below n (suc a / 2) (omega arith) in
    (
      omega (arith, rest, bit_or-halves (suc a) 0),
      omega (arith, rest, bit_or-halves 0 (suc a)),
      omega (arith, rest, bit_and-halves (suc a) 0),
      omega (arith, rest, bit_and-halves 0 (suc a)),
    )

pub zero_laws :
    (a : ℕ) → (bit_or a 0 ≡ a) × (bit_or 0 a ≡ a) × (bit_and a 0 ≡ 0) × (bit_and 0 a ≡ 0)
zero_laws a = zero_laws_below a a (le_refl a)

-- The halves of a number, at the next width.
half_parts :
    (k a : ℕ)
    → (a / 2 / 2 ^ k ≡ a / 2 ^ suc k)
      × (a / 2 % 2 ^ k ≡ a % 2 ^ suc k / 2)
      × (a % 2 ^ suc k % 2 ≡ a % 2)
half_parts k a =
    let p : 1 ≤ 2 ^ k = one-le-pow k 2 (omega arith) in
    let double : 2 ^ suc k ≡ 2 * 2 ^ k = omega (arith, pow-suc 2 k) in
    let whole : a ≡ a / 2 ^ suc k * 2 ^ suc k + a % 2 ^ suc k =
      omega (arith, div-add-mod' a (2 ^ suc k)) in
    let scaled : a / 2 ^ suc k * 2 ^ suc k ≡ 2 * (a / 2 ^ suc k * 2 ^ k) =
      omega (arith, ap (λ (t : ℕ). a / 2 ^ suc k * t) double) in
    let small : a % 2 ^ suc k < 2 ^ suc k = mod-lt a (omega arith) in
    let halved : a / 2 ≡ a % 2 ^ suc k / 2 + a / 2 ^ suc k * 2 ^ k = omega arith in
    (
      omega (arith, div-div-eq-div-mul a 2 (2 ^ k), ap (λ (t : ℕ). a / t) double),
      omega (
        arith,
        ap (λ (t : ℕ). t % 2 ^ k) halved,
        add-mul-mod_self_right (a % 2 ^ suc k / 2) (a / 2 ^ suc k) (2 ^ k),
        mod-eq_of_lt {n = a % 2 ^ suc k / 2} {m = 2 ^ k} (omega arith),
      ),
      omega arith,
    )

-- An operation on digits acts on the part above bit `k` and on the part below it apart.
module _ (op g : ℕ → ℕ → ℕ)
    (halves : (a b : ℕ) → op a b ≡ op (a / 2) (b / 2) * 2 + g (a % 2) (b % 2))
    (zeros : op 0 0 ≡ 0) where
  split : (k a b : ℕ) → op a b ≡ op (a / 2 ^ k) (b / 2 ^ k) * 2 ^ k + op (a % 2 ^ k) (b % 2 ^ k)
  split zero a b = rw (div-one a, div-one b, mod-one a, mod-one b, zeros) (omega arith)
  split (suc k) a b =
      let low = halves (a % 2 ^ suc k) (b % 2 ^ suc k) in
      let high = split k (a / 2) (b / 2) in
      let ha = half_parts k a in
      let hb = half_parts k b in
      let high' : op (a / 2) (b / 2)
          ≡ op (a / 2 ^ suc k) (b / 2 ^ suc k) * 2 ^ k
            + op (a % 2 ^ suc k / 2) (b % 2 ^ suc k / 2) =
        rw (← ha.0, ← hb.0, ← ha.1, ← hb.1) high in
      let bits : g (a % 2 ^ suc k % 2) (b % 2 ^ suc k % 2) ≡ g (a % 2) (b % 2) = ap₂ g ha.2 hb.2 in
      omega
        (arith, halves a b, ap (λ (t : ℕ). op (a / 2 ^ suc k) (b / 2 ^ suc k) * t) (pow-suc 2 k))

pub bit_or-split :
    (k a b : ℕ)
    → bit_or a b ≡ bit_or (a / 2 ^ k) (b / 2 ^ k) * 2 ^ k + bit_or (a % 2 ^ k) (b % 2 ^ k)
bit_or-split = split bit_or max bit_or-halves refl

pub bit_and-split :
    (k a b : ℕ)
    → bit_and a b ≡ bit_and (a / 2 ^ k) (b / 2 ^ k) * 2 ^ k + bit_and (a % 2 ^ k) (b % 2 ^ k)
bit_and-split = split bit_and min bit_and-halves refl

-- A mask of `k` low ones is the remainder by `2 ^ k`.
pub bit_and-low : (k a : ℕ) → bit_and a (2 ^ k - 1) ≡ a % 2 ^ k
bit_and-low zero a = omega (arith, zero_laws a, mod-one a)
bit_and-low (suc k) a =
    let pow : 2 ^ suc k ≡ 2 * 2 ^ k = omega (arith, pow-suc 2 k) in
    let room : 1 ≤ 2 ^ k = one-le-pow k 2 (omega arith) in
    let ones : (2 ^ suc k - 1) / 2 ≡ 2 ^ k - 1 = omega arith in
    let inner : bit_and (a / 2) ((2 ^ suc k - 1) / 2) ≡ a % 2 ^ suc k / 2 =
      ap (bit_and (a / 2)) ones ∙ bit_and-low k (a / 2) ∙ (half_parts k a).1 in
    omega (arith, bit_and-halves a (2 ^ suc k - 1), (half_parts k a).2)

-- Fields that do not meet join as a sum.
pub bit_or-field : (k a b : ℕ) → 0 < 2 ^ k → b < 2 ^ k → bit_or (a * 2 ^ k) b ≡ a * 2 ^ k + b
bit_or-field k a b room small = rw (
  bit_or-split k (a * 2 ^ k) b,
  mul-div_cancel a room,
  div-eq_of_lt small,
  mul-mod_left a (2 ^ k),
  mod-eq_of_lt small,
  (zero_laws a).0,
  (zero_laws b).1,
)

pub bit_or-above : (k a b : ℕ) → 0 < 2 ^ k → b < 2 ^ k → bit_or b (a * 2 ^ k) ≡ a * 2 ^ k + b
bit_or-above k a b room small = rw (
  bit_or-split k b (a * 2 ^ k),
  mul-div_cancel a room,
  div-eq_of_lt small,
  mul-mod_left a (2 ^ k),
  mod-eq_of_lt small,
  (zero_laws a).1,
  (zero_laws b).0,
)
