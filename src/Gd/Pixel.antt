-- ===== src/Gd/Pixel.antt =====
-- drivers/gd.c: what `put_pixel` does to the pixels and to the memory.
use native.Mathlib.Nat.{mul_assoc}
use nika_kernel.Prelude.{
  ℕ, ◌+◌, ◌*◌, ◌/◌, ◌%◌, ◌^◌, ◌<◌, ◌≡◌, inl, inr, refl, arith, ap, ap₂, sym, ◌∙◌, List, [], ◌∷◌,
  ◌==◌, if◌then◌else◌, bit_or, add32,
}
use nika_kernel.Prelude.Bits.{bit_and-low, bit_or-field}
use nika_kernel.CString.{Buffer, poke}
use nika_kernel.Gd.{Screen, store32, rgb565, write_pixel}
use nika_kernel.Gd.Place.{IsFramebuffer, place, write_bytes, place_inside}

-- The parts of a colour.
abbrev pub red : ℕ → ℕ
red c = c / 2 ^ 16 % 256

abbrev pub green : ℕ → ℕ
green c = c / 2 ^ 8 % 256

abbrev pub blue : ℕ → ℕ
blue c = c % 256

-- The colour in 16 bits.
abbrev pub packed : ℕ → ℕ
packed c = red c / 8 * 2048 + green c / 4 * 32 + blue c / 8

-- The bytes of a pixel of the colour, at each depth.
abbrev pub encode : ℕ → ℕ → List ℕ
encode bpp c =
    if bpp == 32
    then blue c ∷ green c ∷ red c ∷ c / 2 ^ 24 % 256 ∷ []
    else if bpp == 24
    then blue c ∷ green c ∷ red c ∷ []
    else packed c % 256 ∷ packed c / 256 ∷ []

-- The colour in 16 bits is the sum of its parts, each cut to its width.
rgb565-packed : (c : ℕ) → rgb565 c ≡ packed c
rgb565-packed c =
    let r = c / 2 ^ 19 % 32 in
    let g = c / 2 ^ 10 % 64 in
    let b = c / 2 ^ 3 % 32 in
    let joined : bit_or (bit_or (r * 2 ^ 11) (g * 2 ^ 5)) b ≡ (r * 64 + g) * 2 ^ 5 + b =
      ap (λ (t : ℕ). bit_or t b)
        (bit_or-field 11 r (g * 2 ^ 5) (omega arith) (omega arith) ∙ omega arith)
      ∙ bit_or-field 5 (r * 64 + g) b (omega arith) (omega arith) in
    rw (bit_and-low 5 (c / 2 ^ 19), bit_and-low 6 (c / 2 ^ 10), bit_and-low 5 (c / 2 ^ 3), joined)
      (omega arith)

-- The place that the code computes for each depth.
places :
    (s : Screen) (x y : ℕ)
    → IsFramebuffer s
    → x < s.width
    → y < s.height
    → (s.bpp ≡ 32 → s.addr + 4 * add32 (y * (s.pitch / 4)) x ≡ place s x y)
      × (s.bpp ≡ 24 → s.addr + add32 (y * s.pitch) (x * 3) ≡ place s x y)
      × (s.bpp ≡ 16 → s.addr + 2 * add32 (y * (s.pitch / 2)) x ≡ place s x y)
places s x y f col row =
    let inside = place_inside s x y f col row in
    let four : y * (s.pitch / 4) * 4 ≡ y * s.pitch =
      mul_assoc y (s.pitch / 4) 4 ∙ ap (λ (t : ℕ). y * t) (omega (arith, f.aligned)) in
    let two : y * (s.pitch / 2) * 2 ≡ y * s.pitch =
      mul_assoc y (s.pitch / 2) 2 ∙ ap (λ (t : ℕ). y * t) (omega (arith, f.aligned)) in
    (
      λ d. omega (arith, f.fits, inside, four, two, ap (λ (t : ℕ). x * (t / 8)) d),
      λ d. omega (arith, f.fits, inside, four, two, ap (λ (t : ℕ). x * (t / 8)) d),
      λ d. omega (arith, f.fits, inside, four, two, ap (λ (t : ℕ). x * (t / 8)) d),
    )

-- The bytes of a store, in order.
store_bytes :
    (m : Buffer) (a u v w t : ℕ)
    → (write_bytes m a (u ∷ v ∷ []) ≡ poke (poke m a u) (a + 1) v)
      × (write_bytes m a (u ∷ v ∷ w ∷ []) ≡ poke (poke (poke m a u) (a + 1) v) (a + 2) w)
      × (write_bytes m a (u ∷ v ∷ w ∷ t ∷ [])
          ≡ poke (poke (poke (poke m a u) (a + 1) v) (a + 2) w) (a + 3) t)
store_bytes m a u v w t =
    let two : a + 1 + 1 ≡ a + 2 = omega arith in
    let three : a + 2 + 1 ≡ a + 3 = omega arith in (refl, rw two, rw (two, three))

-- The code writes the bytes of the colour at the place of the pixel.
pub write_pixel_lem :
    (s : Screen) (x y c : ℕ)
    → IsFramebuffer s
    → x < s.width
    → y < s.height
    → write_pixel s x y c ≡ write_bytes s.byte (place s x y) (encode s.bpp c)
unfolding write_pixel
write_pixel_lem s x y c f col row =
    let (p32, p24, p16) = places s x y f col row in
    let m = s.byte in
    let p = place s x y in
    let bytes = λ (b : ℕ). write_bytes m p (encode b c) in
    let small : packed c < 65536 = omega arith in
    elim f.depth [
      | inl d ↦
          let code : write_pixel s x y c ≡ store32 m (s.addr + 4 * add32 (y * (s.pitch / 4)) x) c =
            rw d in
          code
          ∙ ap (λ (a : ℕ). store32 m a c) (p32 d)
          ∙ sym (store_bytes m p (blue c) (green c) (red c) (c / 2 ^ 24 % 256)).2
          ∙ sym (ap bytes d)
      | inr (inl d) ↦
          let at = s.addr + add32 (y * s.pitch) (x * 3) in
          let code : write_pixel s x y c
              ≡ poke (poke (poke m at (blue c)) (at + 1) (green c)) (at + 2) (red c) =
            rw (d, bit_and-low 8 c, bit_and-low 8 (c / 2 ^ 8), bit_and-low 8 (c / 2 ^ 16)) in
          code
          ∙ ap (λ (a : ℕ). poke (poke (poke m a (blue c)) (a + 1) (green c)) (a + 2) (red c))
              (p24 d)
          ∙ sym (store_bytes m p (blue c) (green c) (red c) 0).1
          ∙ sym (ap bytes d)
      | inr (inr d) ↦
          let at = s.addr + 2 * add32 (y * (s.pitch / 2)) x in
          let code : write_pixel s x y c
              ≡ poke (poke m at (packed c % 256)) (at + 1) (packed c / 256 % 256) =
            rw (d, rgb565-packed c) in
          let low : packed c / 256 % 256 ≡ packed c / 256 = omega arith in
          code
          ∙ ap₂ (λ (a v : ℕ). poke (poke m a (packed c % 256)) (a + 1) v) (p16 d) low
          ∙ sym (store_bytes m p (packed c % 256) (packed c / 256) 0 0).0
          ∙ sym (ap bytes d)
    ]
