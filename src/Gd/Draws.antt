-- ===== src/Gd/Draws.antt =====
-- drivers/gd.c: drawing as a change of some pixels to one colour, and how such changes join.
use mathlib.Core.Path.{subst}
use nika_kernel.Prelude.{
  ℕ, ◌+◌, ◌*◌, ◌/◌, ◌≤◌, ◌<◌, ◌≡◌, ◌≢◌, ◌⊎◌, inl, inr, refl, arith, ap, ap₂, sym, ◌∙◌, Bool, true,
  false, ◌&&◌, ◌||◌, length, ◌==◌, ==-false_of_ne, leb, Bool-cases, if◌then◌else◌,
}
use nika_kernel.Gd.{Screen, put_pixel}
use nika_kernel.Gd.Place.{
  IsFramebuffer, depth_bytes, place, bytes_at, pixel, write_bytes, write_bytes-outside,
  bytes_at-write_bytes, bytes_at-apart, place_inside, place_apart,
}
use nika_kernel.Gd.Pixel.{encode, write_pixel_lem}

-- From `s` to `t` the pixels in `hit` took the colour, the others are as before, and so is all
-- memory outside the framebuffer.
pub record Draws (s t : Screen) (hit : ℕ → ℕ → Bool) (c : ℕ) : Type 0 where
  pub shape : t ≡ record s { byte = t.byte }
  pub pixels :
      (i j : ℕ)
      → i < s.width
      → j < s.height
      → pixel (record s { byte = t.byte }) i j ≡ (if hit i j then encode s.bpp c else pixel s i j)
  pub outside : (a : ℕ) → (a < s.addr) ⊎ (s.addr + s.height * s.pitch ≤ a) → t.byte a ≡ s.byte a

abbrev pub nowhere : ℕ → ℕ → Bool
nowhere i j = false

pub Draws-nothing : (s : Screen) (c : ℕ) → Draws s s nowhere c
Draws-nothing s c = record { shape = refl; pixels = λ i j _ _. refl; outside = λ a _. refl }

pub IsFramebuffer-shape :
    (s t : Screen) → IsFramebuffer s → t ≡ record s { byte = t.byte } → IsFramebuffer t
IsFramebuffer-shape s t f shape =
    subst IsFramebuffer (sym shape) (record {
      ready = f.ready;
      depth = f.depth;
      room = f.room;
      aligned = f.aligned;
      fits = f.fits;
    })

if_or :
    {A : Type 0} (b a : Bool) (p q e : A)
    → q ≡ (if a then e else p)
    → (if b then e else q) ≡ (if b || a then e else p)
if_or true a p q e h = refl
if_or false a p q e h = h

-- One drawing behind another.
pub Draws-join :
    (s t u : Screen) (h k : ℕ → ℕ → Bool) (c : ℕ)
    → Draws s t h c
    → Draws t u k c
    → Draws s u (λ i j. k i j || h i j) c
Draws-join s t u h k c d e =
    let moved : Draws (record s { byte = t.byte }) u k c = subst (λ v. Draws v u k c) d.shape e in
    record {
      shape = moved.shape;
      pixels = λ i j col row.
          moved.pixels i j col row ∙ if_or (k i j) (h i j) _ _ _ (d.pixels i j col row);
      outside = λ a out. moved.outside a out ∙ d.outside a out;
    }

-- The drawing of other but equal sets of pixels.
pub Draws-same :
    (s t : Screen) (h k : ℕ → ℕ → Bool) (c : ℕ)
    → ((i j : ℕ) → i < s.width → j < s.height → h i j ≡ k i j)
    → Draws s t h c
    → Draws s t k c
Draws-same s t h k c same d = record {
  shape = d.shape;
  pixels = λ i j col row.
      d.pixels i j col row
      ∙ ap (λ (b : Bool). if b then encode s.bpp c else pixel s i j) (same i j col row);
  outside = d.outside;
}

length-encode : (s : Screen) (c : ℕ) → IsFramebuffer s → length (encode s.bpp c) ≡ depth_bytes s
length-encode s c f = elim f.depth [
  | inl d ↦ ap (λ (b : ℕ). length (encode b c)) d ∙ ap (λ (b : ℕ). b / 8) (sym d)
  | inr (inl d) ↦ ap (λ (b : ℕ). length (encode b c)) d ∙ ap (λ (b : ℕ). b / 8) (sym d)
  | inr (inr d) ↦ ap (λ (b : ℕ). length (encode b c)) d ∙ ap (λ (b : ℕ). b / 8) (sym d)
]

-- The bytes at the place of one pixel change that pixel alone.
write_bytes-Draws :
    (s : Screen) (x y c : ℕ)
    → IsFramebuffer s
    → x < s.width
    → y < s.height
    → Draws s
        (record s { byte = write_bytes s.byte (place s x y) (encode s.bpp c) })
        (λ i j. (x == i) && (y == j))
        c
write_bytes-Draws s x y c f col row =
    let long = length-encode s c f in
    let inside = place_inside s x y f col row in
    let new = write_bytes s.byte (place s x y) (encode s.bpp c) in
    record {
      shape = refl;
      pixels = λ i j col' row'. elim (Bool-cases ((x == i) && (y == j))) [
        | inl hit ↦
            let column : x ≡ i = ground arith in
            let line : y ≡ j = ground arith in
            rw hit (
              ap₂ (λ (a b : ℕ). bytes_at (depth_bytes s) new (place s a b)) (sym column) (sym line)
              ∙ ap (λ (n : ℕ). bytes_at n new (place s x y)) (sym long)
              ∙ bytes_at-write_bytes s.byte (place s x y) (encode s.bpp c))
        | inr miss ↦
            let differ : (x ≢ i) ⊎ (y ≢ j) = ground arith in
            rw miss (
              bytes_at-apart (depth_bytes s) s.byte (place s i j) (place s x y) (encode s.bpp c)
                (omega (arith, long, place_apart s x y i j f col col' differ)))
      ];
      outside = λ a out.
          write_bytes-outside s.byte (place s x y) a (encode s.bpp c)
            (omega (arith, long, inside, out));
    }

-- A pixel outside the screen is no pixel of it.
pub put_pixel-Draws :
    (s : Screen) (x y c : ℕ)
    → IsFramebuffer s
    → Draws s (put_pixel s x y c) (λ i j. (x == i) && (y == j)) c
unfolding put_pixel
put_pixel-Draws s x y c f =
    let ready : (s.gd_ok == 0) ≡ false = ==-false_of_ne s.gd_ok 0 f.ready in
    elim (Bool-cases (leb s.width x || leb s.height y)) [
      | inl guard ↦
          let same : put_pixel s x y c ≡ s = rw (ready, guard) in
          subst (λ t. Draws s t (λ i j. (x == i) && (y == j)) c) (sym same)
            (Draws-same s s nowhere (λ i j. (x == i) && (y == j)) c (λ i j col row. ground arith)
              (Draws-nothing s c))
      | inr clear ↦
          let col : x < s.width = ground arith in
          let row : y < s.height = ground arith in
          let done : put_pixel s x y c
              ≡ record s { byte = write_bytes s.byte (place s x y) (encode s.bpp c) } =
            rw (ready, clear)
              (ap (λ b. record s { byte = b }) (write_pixel_lem s x y c f col row)) in
          subst (λ t. Draws s t (λ i j. (x == i) && (y == j)) c) (sym done)
            (write_bytes-Draws s x y c f col row)
    ]
