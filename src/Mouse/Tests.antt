-- ===== src/Mouse/Tests.antt =====
-- Runs of drivers/mouse.c, and its theorems there.
use nika_kernel.Prelude.{◌≡◌, refl, arith, min}
use nika_kernel.Prelude.Int.{pos, ◌+ℤ◌, signed8, pos_part}
use nika_kernel.Io.{Device}
use nika_kernel.Mouse.{at_boot, take_byte}
use nika_kernel.Mouse.Motion.{IsOnScreen, take_byte-IsOnScreen}

at_boot-IsOnScreen : IsOnScreen at_boot
at_boot-IsOnScreen = record {
  x = 512;
  y = 384;
  at_x = refl;
  at_y = refl;
  width = omega arith;
  height = omega arith;
  in_packet = omega arith;
  still = refl;
}

take_byte-IsOnScreen_example : IsOnScreen (take_byte at_boot 9)
take_byte-IsOnScreen_example = take_byte-IsOnScreen at_boot 9 at_boot-IsOnScreen

moves : min 1023 (pos_part (pos 512 +ℤ signed8 236)) ≡ 492
moves = refl

abbrev quiet : Device
quiet log port = 0
