-- ===== src/Mouse/Motion.antt =====
-- What the bytes of a packet do to the state of drivers/mouse.c.
use mathlib.Core.Path.{subst}
use nika_kernel.Prelude.{
  ℕ, ◌+◌, ◌<◌, ◌≡◌, min, refl, arith, ap, sym, ◌∙◌, false, not, ◌||◌, ◌==◌, ltb, Bool-cases, inl,
  inr, bit_and, u8,
}
use nika_kernel.Prelude.Int.{ℤ, pos, negsuc, ◌+ℤ◌, ◌-ℤ◌, signed8, pos_part}
use nika_kernel.Mouse.{Mouse, at_least_zero, at_most, process_packet, set_byte, take_byte}

-- Between two bytes of a packet the position is on the screen and the wheel at 0.
pub record IsOnScreen (s : Mouse) : Type 0 where
  pub x : ℕ
  pub y : ℕ
  pub at_x : s.mouse_x ≡ pos x
  pub at_y : s.mouse_y ≡ pos y
  pub width : x < 1024
  pub height : y < 768
  pub in_packet : s.packet_index < 3
  pub still : s.scroll ≡ pos 0

-- The two comparisons keep a value between 0 and the edge.
clamp : (v : ℤ) (edge : ℕ) → at_most (at_least_zero v) edge ≡ pos (min edge (pos_part v))
clamp (pos n) edge = ground arith
clamp (negsuc n) edge = ground arith

-- The state before a byte of a packet is stored.
abbrev stored : Mouse → ℕ → Mouse
stored s byte = record s {
  mouse_packet = set_byte s.mouse_packet s.packet_index byte;
  packet_index = u8 (s.packet_index + 1);
}

take_byte-inside : (s : Mouse) (byte : ℕ) → s.packet_index < 2 → take_byte s byte ≡ stored s byte
unfolding take_byte
take_byte-inside s byte lt =
    let inside : (u8 (s.packet_index + 1) == 3 || u8 (s.packet_index + 1) == 4) ≡ false =
      ground arith in
    rw inside

-- The state after a packet, with its buttons and the pointer at `x`, `y`.
abbrev pub moved : Mouse → ℕ → ℤ → ℤ → Mouse
moved s byte x y = record s {
  mouse_packet = set_byte s.mouse_packet 2 byte;
  packet_index = 0;
  mouse_x = x;
  mouse_y = y;
  left = not (bit_and (s.mouse_packet 0) 1 == 0);
  right = not (bit_and (s.mouse_packet 0) 2 == 0);
  middle = not (bit_and (s.mouse_packet 0) 4 == 0);
  scroll = pos 0;
}

take_byte-last :
    (s : Mouse) (byte : ℕ)
    → s.packet_index ≡ 2
    → take_byte s byte
      ≡ moved s byte
          (pos (min 1023 (pos_part (s.mouse_x +ℤ signed8 (s.mouse_packet 1)))))
          (pos (min 767 (pos_part (s.mouse_y -ℤ signed8 byte))))
unfolding take_byte process_packet
take_byte-last s byte last =
    let x = s.mouse_x +ℤ signed8 (s.mouse_packet 1) in
    let y = s.mouse_y -ℤ signed8 byte in
    ap (λ k. take_byte (record s { packet_index = k }) byte) last
    ∙ ap (λ v. moved s byte v (at_most (at_least_zero y) 767)) (clamp x 1023)
    ∙ ap (moved s byte (pos (min 1023 (pos_part x)))) (clamp y 767)

-- A byte from the mouse keeps the pointer on the screen of 1024 by 768 and the wheel at 0: the
-- fourth byte of a packet is never awaited.
pub take_byte-IsOnScreen : (s : Mouse) (byte : ℕ) → IsOnScreen s → IsOnScreen (take_byte s byte)
take_byte-IsOnScreen s byte h = elim (Bool-cases (ltb s.packet_index 2)) [
  | inl early ↦ subst IsOnScreen (sym (take_byte-inside s byte (ground arith))) (record {
    x = h.x;
    y = h.y;
    at_x = h.at_x;
    at_y = h.at_y;
    width = h.width;
    height = h.height;
    in_packet = ground arith;
    still = h.still;
  })
  | inr late ↦
      subst IsOnScreen (sym (take_byte-last s byte (ground (arith, h.in_packet)))) (record {
        x = min 1023 (pos_part (s.mouse_x +ℤ signed8 (s.mouse_packet 1)));
        y = min 767 (pos_part (s.mouse_y -ℤ signed8 byte));
        at_x = refl;
        at_y = refl;
        width = omega arith;
        height = omega arith;
        in_packet = omega arith;
        still = refl;
      })
]

-- A whole packet of three bytes, from its start, moves the pointer by the second byte to the right
-- and by the third upwards, both read as signed, and stops it at the edges of the screen; the three
-- low bits of the first byte become the buttons; and the next byte starts a packet.
pub take_byte_packet :
    (s : Mouse) (b0 b1 b2 : ℕ)
    → s.packet_index ≡ 0
    → let t = take_byte (take_byte (take_byte s b0) b1) b2 in
      (t.mouse_x ≡ pos (min 1023 (pos_part (s.mouse_x +ℤ signed8 b1))))
      × (t.mouse_y ≡ pos (min 767 (pos_part (s.mouse_y -ℤ signed8 b2))))
      × (t.left ≡ not (bit_and b0 1 == 0))
      × (t.right ≡ not (bit_and b0 2 == 0))
      × (t.middle ≡ not (bit_and b0 4 == 0))
      × (t.packet_index ≡ 0)
take_byte_packet s b0 b1 b2 start =
    let one = stored s b0 in
    let two = stored one b1 in
    let index : s.packet_index ≡ 0 = start in
    let first : take_byte s b0 ≡ one = take_byte-inside s b0 (omega arith) in
    let second : take_byte one b1 ≡ two = take_byte-inside one b1 (omega arith) in
    let third = take_byte-last two b2 (omega arith) in
    let whole =
      ap (λ (m : Mouse). take_byte (take_byte m b1) b2) first
      ∙ ap (λ (m : Mouse). take_byte m b2) second
      ∙ third in
    let at_one : two.mouse_packet 1 ≡ b1 = ground arith in
    let at_zero : two.mouse_packet 0 ≡ b0 = ground arith in
    (
      ap (λ (m : Mouse). m.mouse_x) whole
          ∙ ap (λ k. pos (min 1023 (pos_part (s.mouse_x +ℤ signed8 k)))) at_one,
      ap (λ (m : Mouse). m.mouse_y) whole,
      ap (λ (m : Mouse). m.left) whole ∙ ap (λ k. not (bit_and k 1 == 0)) at_zero,
      ap (λ (m : Mouse). m.right) whole ∙ ap (λ k. not (bit_and k 2 == 0)) at_zero,
      ap (λ (m : Mouse). m.middle) whole ∙ ap (λ k. not (bit_and k 4 == 0)) at_zero,
      ap (λ (m : Mouse). m.packet_index) whole,
    )
