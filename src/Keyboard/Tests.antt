-- ===== src/Keyboard/Tests.antt =====
-- An interrupt of drivers/kybrd.c.
use nika_kernel.Prelude.{ℕ, ◌≡◌, ◌≢◌, refl, arith, [], ◌∷◌}
use nika_kernel.Io.{Device, wrote, was_read, irq_clearmask}
use nika_kernel.Io.Irq.{Interrupts, irq_handler}
use nika_kernel.Keyboard.{kybrd_handler, kybrd_init}
use nika_kernel.Keyboard.Interrupt.{kybrd_init-irq_handler}

-- A keyboard on which 'q' is down.
abbrev q_down : Device
q_down log port = 0x10

abbrev at_start : Interrupts
at_start = record { log = []; irq_handlers = λ n. 0; sys_ticks = 0 }

abbrev only_handler : ℕ → Interrupts → Interrupts
only_handler handler t = record t { log = kybrd_handler q_down t.log }

kybrd_init-irq_handler_example :
    let t = irq_handler only_handler (kybrd_init q_down 0x1000 at_start) 33 in
    (t.log ≡ wrote 0x20 0x20 ∷ was_read 0x60 ∷ irq_clearmask q_down [] 1)
    × (t.sys_ticks ≡ 0)
    × ((n : ℕ) → n ≢ 1 → t.irq_handlers n ≡ 0)
kybrd_init-irq_handler_example =
    kybrd_init-irq_handler q_down 0x1000 only_handler at_start (λ e. ground arith) (λ t. refl)
