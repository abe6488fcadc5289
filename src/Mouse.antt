-- ===== src/Mouse.antt =====
-- drivers/mouse.c: the driver of the mouse, a reader of packets of three bytes. The file's state is a
-- record of its own beside the log of the ports.
pub mod Motion
pub mod Startup
mod Tests
use nika_kernel.Prelude.{
  ℕ, zero, suc, ◌+◌, ◌-◌, bit_and, Bool, true, false, not, ◌||◌, Option, none, some, ◌==◌,
  if◌then◌else◌, u8,
}
use nika_kernel.Prelude.Fallible.{◌>>=◌}
use nika_kernel.Prelude.Int.{ℤ, pos, negsuc, ◌+ℤ◌, ◌-ℤ◌, ltb_ℤ, signed8}
use nika_kernel.Io.{Log, Device, x86write, x86read, halt}
use nika_kernel.Io.Pic.{pic_send_eoi}

abbrev pub mouse_data_port : ℕ
mouse_data_port = 0x60

abbrev pub mouse_status_port : ℕ
mouse_status_port = 0x64

abbrev pub mouse_cmd_enable : ℕ
mouse_cmd_enable = 0xa8

abbrev pub mouse_cmd_write : ℕ
mouse_cmd_write = 0xd4

abbrev pub mouse_reset : ℕ
mouse_reset = 0xff

abbrev pub mouse_enable_data : ℕ
mouse_enable_data = 0xf4

abbrev pub screen_width : ℕ
screen_width = 1024

abbrev pub screen_height : ℕ
screen_height = 768

pub record Mouse : Type 0 where
  pub mouse_packet : ℕ → ℕ
  pub packet_index : ℕ
  pub mouse_x : ℤ
  pub mouse_y : ℤ
  pub left : Bool
  pub right : Bool
  pub middle : Bool
  pub scroll : ℤ

-- The variables' initial values.
abbrev pub at_boot : Mouse
at_boot = record {
  mouse_packet = λ i. 0;
  packet_index = 0;
  mouse_x = pos 512;
  mouse_y = pos 384;
  left = false;
  right = false;
  middle = false;
  scroll = pos 0;
}

-- `none` is a wait that used up its fuel.
unfoldable pub wait_for_input : ℕ → Device → Log → Option Log
wait_for_input zero device log = none
wait_for_input (suc fuel) device log =
    let out = x86read device log mouse_status_port in
    let onward = wait_for_input fuel device (halt out.1) in
    if not (bit_and out.0 0x2 == 0) then onward else some out.1

-- The arguments of `x86write` are a port and a value, in this order.
unfoldable pub send_mouse_command : ℕ → Device → Log → ℕ → Option Log
send_mouse_command fuel device log cmd = do
  a ← wait_for_input fuel device log
  b ← wait_for_input fuel device (x86write a mouse_cmd_write mouse_status_port)
  some (x86write b cmd mouse_data_port)

-- The ports' part of `mouse_init`; it then installs the handler for line 12.
unfoldable pub mouse_init : ℕ → Device → Log → Option Log
mouse_init fuel device log = do
  a ← send_mouse_command fuel device log mouse_cmd_enable
  b ← send_mouse_command fuel device a mouse_reset
  send_mouse_command fuel device b mouse_enable_data

-- The four comparisons, below zero and then above the edge.
abbrev pub at_least_zero : ℤ → ℤ
at_least_zero v = if ltb_ℤ v (pos 0) then pos 0 else v

abbrev pub at_most : ℤ → ℕ → ℤ
at_most v edge = if ltb_ℤ (pos edge) v then pos edge else v

unfoldable pub process_packet : Mouse → Mouse
process_packet s =
    let dx = signed8 (s.mouse_packet 1) in
    let dy = signed8 (s.mouse_packet 2) in
    let ds = if s.packet_index == 4 then signed8 (s.mouse_packet 3) else pos 0 in
    record s {
      mouse_x = at_most (at_least_zero (s.mouse_x +ℤ dx)) (screen_width - 1);
      mouse_y = at_most (at_least_zero (s.mouse_y -ℤ dy)) (screen_height - 1);
      left = not (bit_and (s.mouse_packet 0) 0x1 == 0);
      right = not (bit_and (s.mouse_packet 0) 0x2 == 0);
      middle = not (bit_and (s.mouse_packet 0) 0x4 == 0);
      scroll = ds;
    }

abbrev pub set_byte : (ℕ → ℕ) → ℕ → ℕ → ℕ → ℕ
set_byte packet i byte j = if i == j then byte else packet j

-- The handler once it has read a byte.
unfoldable pub take_byte : Mouse → ℕ → Mouse
take_byte s byte =
    let stored = record s {
      mouse_packet = set_byte s.mouse_packet s.packet_index byte;
      packet_index = u8 (s.packet_index + 1);
    } in
    if stored.packet_index == 3 || stored.packet_index == 4
    then record (process_packet stored) { packet_index = 0 }
    else stored

unfoldable pub mouse_irq_handler : Device → Mouse → Log → Mouse × Log
mouse_irq_handler device s log =
    let out = x86read device log mouse_data_port in (take_byte s out.0, pic_send_eoi out.1 12)

abbrev pub mouse_get_x : Mouse → ℤ
mouse_get_x s = s.mouse_x

abbrev pub mouse_get_y : Mouse → ℤ
mouse_get_y s = s.mouse_y

abbrev pub mouse_left_pressed : Mouse → Bool
mouse_left_pressed s = s.left

abbrev pub mouse_right_pressed : Mouse → Bool
mouse_right_pressed s = s.right

abbrev pub mouse_middle_pressed : Mouse → Bool
mouse_middle_pressed s = s.middle

abbrev pub mouse_get_scroll : Mouse → ℤ
mouse_get_scroll s = s.scroll
