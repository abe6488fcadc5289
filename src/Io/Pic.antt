-- ===== src/Io/Pic.antt =====
-- core/io/pic.c: the two interrupt controllers.
use nika_kernel.Prelude.{ℕ, bit_or, leb, if◌then◌else◌, u16, ◌<<<◌}
use nika_kernel.Io.{
  Log, Device, x86write, x86read, io_wait, pic1_cmd, pic1_data, pic2_cmd, pic2_data, pic_eoi,
}

abbrev pub icw1_icw4 : ℕ
icw1_icw4 = 0x01

abbrev pub icw1_init : ℕ
icw1_init = 0x10

abbrev pub icw4_8086 : ℕ
icw4_8086 = 0x01

abbrev pub cascade_irq : ℕ
cascade_irq = 2

unfoldable pub pic_remap : Log → ℕ → ℕ → Log
pic_remap log offset1 offset2 =
    let a = io_wait (x86write log pic1_cmd (bit_or icw1_init icw1_icw4)) in
    let b = io_wait (x86write a pic2_cmd (bit_or icw1_init icw1_icw4)) in
    let c = io_wait (x86write b pic1_data offset1) in
    let d = io_wait (x86write c pic2_data offset2) in
    let e = io_wait (x86write d pic1_data (1 <<< cascade_irq)) in
    let f = io_wait (x86write e pic2_data 2) in
    let g = io_wait (x86write f pic1_data icw4_8086) in
    let h = io_wait (x86write g pic2_data icw4_8086) in
    x86write (x86write h pic1_data 0xfb) pic2_data 0xff

abbrev pub pic_disable : Log → Log
pic_disable log = x86write (x86write log pic1_data 0xff) pic2_data 0xff

unfoldable pub pic_send_eoi : Log → ℕ → Log
pic_send_eoi log irq =
    x86write (if leb 8 irq then x86write log pic2_cmd pic_eoi else log) pic1_cmd pic_eoi

-- The two reads stand in one expression, whose order C leaves open; this is the order written.
abbrev pub pic_get_irq_reg : Device → Log → ℕ → ℕ × Log
pic_get_irq_reg device log ocw3 =
    let high = x86read device (x86write (x86write log pic1_cmd ocw3) pic2_cmd ocw3) pic2_cmd in
    let low = x86read device high.1 pic1_cmd in (u16 (bit_or (high.0 <<< 8) low.0), low.1)

abbrev pub pic_get_irr : Device → Log → ℕ × Log
pic_get_irr device log = pic_get_irq_reg device log 0x0a

abbrev pub pic_get_isr : Device → Log → ℕ × Log
pic_get_isr device log = pic_get_irq_reg device log 0x0b

abbrev pub pic_init : Log → Log
pic_init log = pic_remap log 0x20 0x28
