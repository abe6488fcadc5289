-- ===== src/Keyboard.antt =====
-- drivers/kybrd.c: the keyboard's interrupt handler, which reads each scan code and keeps nothing.
pub mod Interrupt
mod Tests
use nika_kernel.Prelude.{ℕ, bit_and, not, ◌||◌, List, [], ◌∷◌, ◌==◌, ltb, if◌then◌else◌, get_or}
use nika_kernel.Prelude.Int.{pos}
use nika_kernel.Io.{Log, Device, x86read, irq_clearmask}
use nika_kernel.Io.Irq.{Interrupts, irq_install_handler}

abbrev pub kbd_dataport : ℕ
kbd_dataport = 0x60

-- The characters of the scan codes from 0 on; the entries behind these are 0.
abbrev pub ky_scancodes : List ℕ
ky_scancodes =
    0 ∷ 27 ∷ b'1' ∷ b'2' ∷ b'3' ∷ b'4' ∷ b'5' ∷ b'6' ∷ b'7' ∷ b'8' ∷ b'9' ∷ b'0' ∷ b'-' ∷ b'=' ∷ 8
    ∷ 9 ∷ b'q' ∷ b'w' ∷ b'e' ∷ b'r' ∷ b't' ∷ b'y' ∷ b'u' ∷ b'i' ∷ b'o' ∷ b'p' ∷ b'[' ∷ b']' ∷ 10 ∷ 0
    ∷ b'a' ∷ b's' ∷ b'd' ∷ b'f' ∷ b'g' ∷ b'h' ∷ b'j' ∷ b'k' ∷ b'l' ∷ b';' ∷ 39 ∷ 96 ∷ 0 ∷ 92 ∷ b'z'
    ∷ b'x' ∷ b'c' ∷ b'v' ∷ b'b' ∷ b'n' ∷ b'm' ∷ b',' ∷ b'.' ∷ b'/' ∷ 0 ∷ b'*' ∷ 0 ∷ b' ' ∷ []

-- Every return leaves the state as the read left it.
unfoldable pub kybrd_handler : Device → Log → Log
kybrd_handler device log =
    let scancode = x86read device log kbd_dataport in
    let k = get_or ky_scancodes scancode.0 0 in
    if not (bit_and scancode.0 0x80 == 0)
    then scancode.1
    else if not (ltb scancode.0 128)
    then scancode.1
    else if k == 0
    then scancode.1
    else if k == 10
    then scancode.1
    else if k == 8
    then scancode.1
    else if (k == 9) || (k == 27)
    then scancode.1
    else scancode.1

-- `handler` is the address of `kybrd_handler`.
unfoldable pub kybrd_init : Device → ℕ → Interrupts → Interrupts
unfolding irq_install_handler
kybrd_init device handler s =
    irq_install_handler (record s { log = irq_clearmask device s.log 1 }) (pos 1) handler
