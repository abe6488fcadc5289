-- ===== src/Prelude/Bytes.antt =====
-- Single bits of a byte: the tests and changes that C code writes with `1 << k`, and what one change
-- does to each test, settled for all bytes by evaluation.
use nika_kernel.Prelude.{
  ℕ, ◌-◌, ◌^◌, ◌<◌, bit_and, bit_or, ◌≡◌, refl, arith, Bool, true, false, not, ◌&&◌, ◌||◌, ◌==◌, u8,
  ◌<<<◌,
}
use nika_kernel.Prelude.Table.{every, every-apply}

beq : Bool → Bool → Bool
beq true b = b
beq false b = not b

beq_sound : (a b : Bool) → beq a b ≡ true → a ≡ b
unfolding beq
beq_sound true true h = refl
beq_sound true false h = ground arith
beq_sound false true h = ground arith
beq_sound false false h = refl

and_parts : (a b : Bool) → (a && b) ≡ true → (a ≡ true) × (b ≡ true)
and_parts true b h = (refl, h)
and_parts false b h = ground arith

unfoldable pub bit_clear : ℕ → ℕ → Bool
bit_clear b j = bit_and b (1 <<< j) == 0

unfoldable pub set_in_byte : ℕ → ℕ → ℕ
set_in_byte b k = u8 (bit_or b (1 <<< k))

unfoldable pub clear_in_byte : ℕ → ℕ → ℕ
clear_in_byte b k = u8 (bit_and b (2 ^ 32 - 1 - 1 <<< k))

agrees : ℕ → ℕ → ℕ → Bool
agrees b k j =
    beq (bit_clear (set_in_byte b k) j) (not (k == j) && bit_clear b j)
    && beq (bit_clear (clear_in_byte b k) j) ((k == j) || bit_clear b j)

table : every (λ b. every (λ k. every (agrees b k) 8) 8) 256 ≡ true
unfolding every beq agrees bit_clear set_in_byte clear_in_byte
table = refl

agrees_sound :
    (b k j : ℕ)
    → agrees b k j ≡ true
    → (bit_clear (set_in_byte b k) j ≡ (not (k == j) && bit_clear b j))
      × (bit_clear (clear_in_byte b k) j ≡ ((k == j) || bit_clear b j))
unfolding agrees
agrees_sound b k j h = let both = and_parts _ _ h in (beq_sound _ _ both.0, beq_sound _ _ both.1)

pub byte_bits :
    (b k j : ℕ)
    → b < 256
    → k < 8
    → j < 8
    → (bit_clear (set_in_byte b k) j ≡ (not (k == j) && bit_clear b j))
      × (bit_clear (clear_in_byte b k) j ≡ ((k == j) || bit_clear b j))
byte_bits b k j hb hk hj =
    let at_b = every-apply (λ b. every (λ k. every (agrees b k) 8) 8) 256 table hb in
    let at_k = every-apply (λ k. every (agrees b k) 8) 8 at_b hk in
    agrees_sound b k j (every-apply (agrees b k) 8 at_k hj)
