-- ===== src/Io/Timer.antt =====
-- core/io/timer.c: the timer and its ticks.
use nika_kernel.Prelude.{
  ℕ, zero, suc, ◌+◌, ◌/◌, ◌%◌, ◌^◌, bit_and, Option, none, some, ltb, if◌then◌else◌, u8, ◌>>>◌,
}
use nika_kernel.Prelude.Int.{pos}
use nika_kernel.Io.{Log, Device, x86write, irq_clearmask}
use nika_kernel.Io.Irq.{Interrupts, irq_install_handler}

-- A frequency of 0 is a division by zero.
unfoldable pub setup_pit : Log → ℕ → Log
setup_pit log freq =
    let div = 1193182 / freq in
    x86write (x86write (x86write log 0x43 0x36) 0x40 (u8 (bit_and div 0xff))) 0x40
      (u8 (bit_and (div >>> 8) 0xff))

-- The loop of `ksleep`: `wake` is what one `hlt` and the interrupts that end it do to the ticks.
unfoldable pub sleep_until : ℕ → (ℕ → ℕ) → ℕ → ℕ → Option ℕ
sleep_until zero wake target ticks = none
sleep_until (suc fuel) wake target ticks =
    let onward = sleep_until fuel wake target (wake ticks) in
    if ltb ticks target then onward else some ticks

unfoldable pub ksleep : ℕ → (ℕ → ℕ) → ℕ → ℕ → Option ℕ
unfolding sleep_until
ksleep fuel wake ticks ms = sleep_until fuel wake ((ticks + ms) % 2 ^ 64) ticks

abbrev pub timer_handler : Interrupts → Interrupts
timer_handler s = record s { sys_ticks = (s.sys_ticks + 1) % 2 ^ 64 }

-- `handler` is the address of `timer_handler`.
unfoldable pub pit_init : Device → Interrupts → ℕ → Interrupts
pit_init device s handler =
    let installed = irq_install_handler s (pos 0) handler in
    record installed { log = setup_pit (irq_clearmask device installed.log 0) 1000 }
