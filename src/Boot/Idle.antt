-- ===== src/Boot/Idle.antt =====
-- core/init.c: the endless loop of `kmain`, where the interrupt of the timer ends each `hlt`.
use nika_kernel.Prelude.{
  ℕ, zero, suc, ◌+◌, ◌%◌, ◌^◌, ◌≡◌, ◌≢◌, refl, ap, ◌∙◌, arith, ◌∷◌, ==-false_of_ne,
}
use nika_kernel.Io.{halt, wrote}
use nika_kernel.Io.Irq.{Interrupts, irq_handler}
use nika_kernel.Io.Timer.{timer_handler}
use nika_kernel.Process.{Kernel, schedule}
use nika_kernel.Boot.{Boot, idle}

-- A `hlt` and the timer's interrupt: the ticks, and the end of interrupt at the first controller.
abbrev pub tick : Interrupts → Interrupts
tick i = record i { log = wrote 0x20 0x20 ∷ halt i.log; sys_ticks = (i.sys_ticks + 1) % 2 ^ 64 }

abbrev pub ticked : ℕ → Interrupts → Interrupts
ticked zero i = i
ticked (suc n) i = ticked n (tick i)

pub sys_ticks-ticked :
    (n : ℕ) (i : Interrupts) → (ticked n i).sys_ticks % 2 ^ 64 ≡ (i.sys_ticks + n) % 2 ^ 64
sys_ticks-ticked zero i = ap (λ (k : ℕ). k % 2 ^ 64) (omega arith)
sys_ticks-ticked (suc n) i = sys_ticks-ticked n (tick i) ∙ omega arith

module _ (run : ℕ → Interrupts → Interrupts) (timer : ℕ) (real : timer ≢ 0)
    (code : (t : Interrupts) → run timer t ≡ timer_handler t) where
  -- The interrupt that the timer's handler serves.
  irq_handler-timer :
      (t : Interrupts)
      → t.irq_handlers 0 ≡ timer
      → irq_handler run t 32
        ≡ record t { log = wrote 0x20 0x20 ∷ t.log; sys_ticks = (t.sys_ticks + 1) % 2 ^ 64 }
  unfolding irq_handler
  irq_handler-timer t there = rw (there, ==-false_of_ne timer 0 real, code t)

  -- Without a process the scheduler changes nothing.
  pub idle-ticked :
      (rounds : ℕ) (s : Boot)
      → s.kernel.process_list ≡ 0
      → s.irqs.irq_handlers 0 ≡ timer
      → idle rounds (λ t. irq_handler run t 32) s ≡ record s { irqs = ticked rounds s.irqs }
  unfolding idle schedule
  idle-ticked zero s none_there there = refl
  idle-ticked (suc rounds) s none_there there =
      let same : schedule s.kernel ≡ s.kernel = rw none_there in
      let woken = irq_handler-timer (record s.irqs { log = halt s.irqs.log }) there in
      ap
        (λ (k : Kernel).
          idle rounds (λ t. irq_handler run t 32)
            (record s {
              kernel = k;
              irqs = irq_handler run (record s.irqs { log = halt s.irqs.log }) 32;
            }))
        same
      ∙ ap (λ (i : Interrupts). idle rounds (λ t. irq_handler run t 32) (record s { irqs = i }))
          woken
      ∙ idle-ticked rounds (record s { irqs = tick s.irqs }) none_there there
