-- ===== src/Io.antt =====
-- core/hal.c: the ports of the processor and the masks of the interrupt controllers. A log holds what
-- the kernel did to the ports, the latest event first; a device says what a read gives after a log.
pub mod Pic
pub mod Irq
pub mod Timer
pub mod Masks
pub mod Dispatch
pub mod Ticks
mod Tests
use nika_kernel.Prelude.{
  ℕ, ◌+◌, ◌-◌, ◌^◌, bit_and, bit_or, List, [], ◌∷◌, ltb, if◌then◌else◌, u8, u16, u32, ◌<<<◌,
}

pub data PortEvent : Type 0 where
  wrote : ℕ → ℕ → PortEvent
  was_read : ℕ → PortEvent
  wrote_long : ℕ → ℕ → PortEvent
  was_read_long : ℕ → PortEvent
  halted : PortEvent

abbrev pub Log : Type 0
Log = List PortEvent

-- The value at a port after a log.
abbrev pub Device : Type 0
Device = Log → ℕ → ℕ

abbrev pub halt : Log → Log
halt log = halted ∷ log

abbrev pub x86write : Log → ℕ → ℕ → Log
x86write log port val = wrote (u16 port) (u8 val) ∷ log

abbrev pub x86read : Device → Log → ℕ → ℕ × Log
x86read device log port = (u8 (device log (u16 port)), was_read (u16 port) ∷ log)

abbrev pub x86write_long : Log → ℕ → ℕ → Log
x86write_long log port value = wrote_long (u16 port) (u32 value) ∷ log

abbrev pub x86read_long : Device → Log → ℕ → ℕ × Log
x86read_long device log port = (u32 (device log (u16 port)), was_read_long (u16 port) ∷ log)

abbrev pub io_wait : Log → Log
io_wait log = wrote 0x80 0 ∷ log

abbrev pub pic1_cmd : ℕ
pic1_cmd = 0x20

abbrev pub pic1_data : ℕ
pic1_data = 0x21

abbrev pub pic2_cmd : ℕ
pic2_cmd = 0xa0

abbrev pub pic2_data : ℕ
pic2_data = 0xa1

abbrev pub pic_eoi : ℕ
pic_eoi = 0x20

-- The controller of a line, and the line's bit there.
abbrev pub mask_port : ℕ → ℕ
mask_port irq_line = if ltb irq_line 8 then pic1_data else pic2_data

abbrev pub mask_bit : ℕ → ℕ
mask_bit irq_line = if ltb irq_line 8 then irq_line else irq_line - 8

unfoldable pub irq_setmask : Device → Log → ℕ → Log
irq_setmask device log irq_line =
    let port = mask_port irq_line in
    let out = x86read device log port in
    if ltb 15 irq_line then log else x86write out.1 port (bit_or out.0 (1 <<< mask_bit irq_line))

-- There is no guard here, and a shift by 32 or more has no meaning in C.
unfoldable pub irq_clearmask : Device → Log → ℕ → Log
irq_clearmask device log irq_line =
    let port = mask_port irq_line in
    let out = x86read device log port in
    x86write out.1 port (bit_and out.0 (2 ^ 32 - 1 - 1 <<< mask_bit irq_line))
