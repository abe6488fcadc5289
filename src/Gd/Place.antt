-- ===== src/Gd/Place.antt =====
-- drivers/gd.c: where the pixels of a framebuffer lie, and bytes written there.
use native.Mathlib.Nat.{mul-le-mul_right}
use nika_kernel.Prelude.{
  ℕ, zero, suc, ◌+◌, ◌*◌, ◌/◌, ◌%◌, ◌^◌, ◌≤◌, ◌<◌, ◌≡◌, ◌≢◌, ◌⊎◌, inl, inr, refl, arith, ap, ap₂,
  ◌∙◌, List, [], ◌∷◌, length,
}
use nika_kernel.CString.{Buffer, poke}
use nika_kernel.Gd.{Screen}

-- A framebuffer of one of the three depths, whose rows follow each other without overlap, at the
-- alignment of its pixels, and which fits the address space.
pub record IsFramebuffer (s : Screen) : Type 0 where
  pub ready : s.gd_ok ≢ 0
  pub depth : (s.bpp ≡ 32) ⊎ (s.bpp ≡ 24) ⊎ (s.bpp ≡ 16)
  pub room : s.width * (s.bpp / 8) ≤ s.pitch
  pub aligned : s.pitch % 4 ≡ 0
  pub fits : s.height * s.pitch < 2 ^ 32

-- The bytes of a pixel.
abbrev pub depth_bytes : Screen → ℕ
depth_bytes s = s.bpp / 8

abbrev pub place : Screen → ℕ → ℕ → ℕ
place s x y = s.addr + y * s.pitch + x * depth_bytes s

abbrev pub bytes_at : ℕ → Buffer → ℕ → List ℕ
bytes_at zero m a = []
bytes_at (suc n) m a = m a ∷ bytes_at n m (a + 1)

-- The bytes of the pixel in a column and a row.
abbrev pub pixel : Screen → ℕ → ℕ → List ℕ
pixel s i j = bytes_at (depth_bytes s) s.byte (place s i j)

abbrev pub write_bytes : Buffer → ℕ → List ℕ → Buffer
write_bytes m a [] = m
write_bytes m a (b ∷ bs) = write_bytes (poke m a b) (a + 1) bs

pub write_bytes-outside :
    (m : Buffer) (a k : ℕ) (bs : List ℕ)
    → (k < a) ⊎ (a + length bs ≤ k)
    → write_bytes m a bs k ≡ m k
write_bytes-outside m a k [] out = refl
write_bytes-outside m a k (b ∷ bs) out =
    write_bytes-outside (poke m a b) (a + 1) k bs (omega arith) ∙ ground arith

bytes_at_same :
    (n : ℕ) (m m' : Buffer) (a : ℕ)
    → ((k : ℕ) → a ≤ k → k < a + n → m k ≡ m' k)
    → bytes_at n m a ≡ bytes_at n m' a
bytes_at_same zero m m' a same = refl
bytes_at_same (suc n) m m' a same =
    ap₂ (λ (h : ℕ) (t : List ℕ). h ∷ t) (same a (omega arith) (omega arith))
      (bytes_at_same n m m' (a + 1) (λ k lo hi. same k (omega arith) (omega arith)))

pub bytes_at-write_bytes :
    (m : Buffer) (a : ℕ) (bs : List ℕ) → bytes_at (length bs) (write_bytes m a bs) a ≡ bs
bytes_at-write_bytes m a [] = refl
bytes_at-write_bytes m a (b ∷ bs) =
    ap₂ (λ (h : ℕ) (t : List ℕ). h ∷ t)
      (write_bytes-outside (poke m a b) (a + 1) a bs (omega arith) ∙ ground arith)
      (bytes_at-write_bytes (poke m a b) (a + 1) bs)

pub bytes_at-apart :
    (n : ℕ) (m : Buffer) (a p : ℕ) (bs : List ℕ)
    → (a + n ≤ p) ⊎ (p + length bs ≤ a)
    → bytes_at n (write_bytes m p bs) a ≡ bytes_at n m a
bytes_at-apart n m a p bs apart =
    bytes_at_same n (write_bytes m p bs) m a (λ k lo hi. write_bytes-outside m p k bs (omega arith))

order_cases : (a b : ℕ) → (a < b) ⊎ (a ≡ b) ⊎ (b < a)
order_cases a b = omega arith

-- A row begins behind the end of each row above it.
rows_apart : (y k p : ℕ) → y < k → y * p + p ≤ k * p
rows_apart y k p lt = omega (arith, mul-le-mul_right {m = y + 1} {n = k} p (omega arith))

-- A column ends in its row, and before each column on its right.
pub columns_apart :
    (s : Screen) (x k : ℕ) → x < k → x * depth_bytes s + depth_bytes s ≤ k * depth_bytes s
columns_apart s x k lt = rows_apart x k (depth_bytes s) lt

pub place_inside :
    (s : Screen) (x y : ℕ)
    → IsFramebuffer s
    → x < s.width
    → y < s.height
    → (s.addr ≤ place s x y) × (place s x y + depth_bytes s ≤ s.addr + s.height * s.pitch)
place_inside s x y f col row =
    let a = rows_apart y s.height s.pitch row in
    let b = columns_apart s x s.width col in (omega arith, omega (arith, f.room))

pub place_apart :
    (s : Screen) (x y i j : ℕ)
    → IsFramebuffer s
    → x < s.width
    → i < s.width
    → (x ≢ i) ⊎ (y ≢ j)
    → (place s i j + depth_bytes s ≤ place s x y) ⊎ (place s x y + depth_bytes s ≤ place s i j)
place_apart s x y i j f col col' differ =
    let end = columns_apart s x s.width col in
    let end' = columns_apart s i s.width col' in
    elim (order_cases y j) [
      | inl above ↦ inr (omega (arith, f.room, rows_apart y j s.pitch above))
      | inr (inl same) ↦ elim (order_cases x i) [
        | inl left ↦ inr (omega (arith, ap (λ (k : ℕ). k * s.pitch) same, columns_apart s x i left))
        | inr (inl equal) ↦ absurd (ground arith)
        | inr (inr right) ↦
            inl (omega (arith, ap (λ (k : ℕ). k * s.pitch) same, columns_apart s i x right))
      ]
      | inr (inr below) ↦ inl (omega (arith, f.room, rows_apart j y s.pitch below))
    ]
