-- ===== src/Io/Irq.antt =====
-- core/io/irq.c: the handlers of the sixteen interrupt lines. A handler is its address, 0 is NULL,
-- and `run` says what the code at an address does.
use nika_kernel.Prelude.{ℕ, ◌^◌, not, ◌&&◌, ◌==◌, ltb, leb, if◌then◌else◌, sub32}
use nika_kernel.Prelude.Int.{ℤ, pos, negsuc}
use nika_kernel.Io.{Log, x86write, pic1_cmd, pic2_cmd, pic_eoi}

-- The state of the file, the log, and the count of ticks of core/io/timer.c.
pub record Interrupts : Type 0 where
  pub log : Log
  pub irq_handlers : ℕ → ℕ
  pub sys_ticks : ℕ

abbrev pub set_handler : (ℕ → ℕ) → ℕ → ℕ → ℕ → ℕ
set_handler handlers irq handler j = if irq == j then handler else handlers j

unfoldable pub irq_install_handler : Interrupts → ℤ → ℕ → Interrupts
irq_install_handler s (pos irq) handler =
    if ltb irq 16 then record s { irq_handlers = set_handler s.irq_handlers irq handler } else s
irq_install_handler s (negsuc n) handler = s

unfoldable pub irq_uninstall_handler : Interrupts → ℤ → Interrupts
irq_uninstall_handler s (pos irq) =
    if ltb irq 16 then record s { irq_handlers = set_handler s.irq_handlers irq 0 } else s
irq_uninstall_handler s (negsuc n) = s

-- The end of an interrupt of line `n`: the comparison is of an `int`.
abbrev pub end_interrupt : ℕ → Log → Log
end_interrupt n log =
    x86write (if leb 8 n && ltb n (2 ^ 31) then x86write log pic2_cmd pic_eoi else log) pic1_cmd
      pic_eoi

-- `irq_handler` for line `irq_n`: the handler, if there is one, and the end of interrupt.
abbrev pub dispatch : (ℕ → Interrupts → Interrupts) → Interrupts → ℕ → Interrupts
dispatch run s irq_n =
    let handled = if not (s.irq_handlers irq_n == 0) then run (s.irq_handlers irq_n) s else s in
    record handled { log = end_interrupt irq_n handled.log }

unfoldable pub irq_handler : (ℕ → Interrupts → Interrupts) → Interrupts → ℕ → Interrupts
irq_handler run s int_no = dispatch run s (sub32 int_no 32)
