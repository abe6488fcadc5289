-- ===== src/Io/Tests.antt =====
-- Runs of core/hal.c, core/io/irq.c and core/io/timer.c, and their theorems there.
use nika_kernel.Prelude.{ℕ, ◌+◌, ◌≤◌, ◌<◌, ◌≡◌, ◌≢◌, arith, not, ◌&&◌, ◌||◌, some, [], ◌∷◌, ◌==◌}
use nika_kernel.Prelude.Bytes.{bit_clear}
use nika_kernel.Prelude.Int.{pos}
use nika_kernel.Io.{Device, wrote, was_read, irq_setmask, irq_clearmask, pic2_data}
use nika_kernel.Io.Pic.{pic_send_eoi}
use nika_kernel.Io.Irq.{Interrupts, irq_install_handler, irq_uninstall_handler, irq_handler}
use nika_kernel.Io.Timer.{ksleep, timer_handler}
use nika_kernel.Io.Masks.{irq_setmask-irq_clearmask}
use nika_kernel.Io.Dispatch.{irq_handler-irq_install_handler}
use nika_kernel.Io.Ticks.{ksleep-returns}

abbrev all_masked : Device
all_masked log port = 0xff

abbrev idle : Interrupts
idle = record { log = []; irq_handlers = λ i. 0; sys_ticks = 41 }

abbrev run_timer : ℕ → Interrupts → Interrupts
run_timer handler s = timer_handler s

irq_setmask-irq_clearmask_example :
    (12 < 16
      → (v : ℕ) × (w : ℕ) × (irq_setmask all_masked [] 12
          ≡ wrote pic2_data v ∷ was_read pic2_data ∷ [])
        × (irq_clearmask all_masked [] 12 ≡ wrote pic2_data w ∷ was_read pic2_data ∷ [])
        × ((j : ℕ)
            → j < 8
            → (bit_clear v j ≡ (not (4 == j) && bit_clear 255 j))
              × (bit_clear w j ≡ ((4 == j) || bit_clear 255 j))))
    × (15 < 12 → irq_setmask all_masked [] 12 ≡ [])
irq_setmask-irq_clearmask_example = irq_setmask-irq_clearmask all_masked [] 12

irq_handler-irq_install_handler_example :
    let t = irq_install_handler idle (pos 0) 0x5000 in
    let u = irq_uninstall_handler t (pos 0) in
    (irq_handler run_timer t 32
      ≡ record (run_timer 0x5000 t) { log = pic_send_eoi (run_timer 0x5000 t).log 0 })
    × ((m : ℕ) → m ≢ 0 → t.irq_handlers m ≡ idle.irq_handlers m)
    × (irq_handler run_timer u 32 ≡ record u { log = pic_send_eoi [] 0 })
irq_handler-irq_install_handler_example =
    irq_handler-irq_install_handler run_timer idle 0 0x5000 (omega arith) (omega arith)

ksleep-returns_example : (end : ℕ) × (ksleep 6 (λ t. t + 1) 41 5 ≡ some end) × (41 + 5 ≤ end)
ksleep-returns_example =
    ksleep-returns 6 (λ t. t + 1) 41 5 (omega arith) (λ t lt. omega arith) (omega arith)
