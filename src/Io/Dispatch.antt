-- ===== src/Io/Dispatch.antt =====
-- The dispatch of interrupts in core/io/irq.c.
use mathlib.Core.Path.{subst}
use nika_kernel.Prelude.{
  sub32, ℕ, ◌+◌, ◌<◌, ◌≡◌, ◌≢◌, refl, arith, ap, sym, ◌∙◌, Bool, true, false, not, ◌==◌, ltb,
  if◌then◌else◌, ==_iff, ==-false_of_ne,
}
use nika_kernel.Prelude.Int.{pos}
use nika_kernel.Io.{Log}
use nika_kernel.Io.Pic.{pic_send_eoi}
use nika_kernel.Io.Irq.{
  Interrupts, irq_install_handler, irq_uninstall_handler, irq_handler, dispatch, set_handler,
  end_interrupt,
}

end_interrupt-pic_send_eoi : (n : ℕ) (log : Log) → n < 16 → end_interrupt n log ≡ pic_send_eoi log n
unfolding pic_send_eoi
end_interrupt-pic_send_eoi n log lt = ground arith

-- An interrupt of line `n` with handler `h`, or with none.
irq_handler-runs :
    (run : ℕ → Interrupts → Interrupts) (s : Interrupts) (n h : ℕ)
    → n < 16
    → s.irq_handlers n ≡ h
    → let handled = if h == 0 then s else run h s in
      irq_handler run s (n + 32) ≡ record handled { log = pic_send_eoi handled.log n }
unfolding irq_handler
irq_handler-runs run s n h lt here =
    let index : sub32 (n + 32) 32 ≡ n = omega arith in
    ap (dispatch run s) index
    ∙ ap
        (λ k.
          let handled = if not (k == 0) then run k s else s in
          record handled { log = end_interrupt n handled.log })
        here
    ∙ ends (h == 0)
  where
    ends :
        (c : Bool)
        → let handled = if not c then run h s else s in
          let handled' = if c then s else run h s in
          record handled { log = end_interrupt n handled.log }
          ≡ record handled' { log = pic_send_eoi handled'.log n }
    ends true =
        ap (λ l. let t : Interrupts = record s { log = l } in t)
          (end_interrupt-pic_send_eoi n s.log lt)
    ends false =
        ap (λ l. let t : Interrupts = record (run h s) { log = l } in t)
          (end_interrupt-pic_send_eoi n (run h s).log lt)

abbrev with_handler : Interrupts → ℕ → ℕ → Interrupts
with_handler s n handler = record s { irq_handlers = set_handler s.irq_handlers n handler }

-- For lines below 16: after a handler is installed, an interrupt of its line runs it and then sends
-- the end of interrupt, to the second controller as well from line 8 on; an interrupt of another
-- line finds the handler it had; and after the handler is removed an interrupt of its line only
-- sends the end of interrupt.
pub irq_handler-irq_install_handler :
    (run : ℕ → Interrupts → Interrupts) (s : Interrupts) (n handler : ℕ)
    → n < 16
    → handler ≢ 0
    → let t = irq_install_handler s (pos n) handler in
      let u = irq_uninstall_handler t (pos n) in
      (irq_handler run t (n + 32)
        ≡ record (run handler t) { log = pic_send_eoi (run handler t).log n })
      × ((m : ℕ) → m ≢ n → t.irq_handlers m ≡ s.irq_handlers m)
      × (irq_handler run u (n + 32) ≡ record u { log = pic_send_eoi s.log n })
unfolding irq_handler irq_install_handler irq_uninstall_handler pic_send_eoi
irq_handler-irq_install_handler run s n handler lt real =
    let low : ltb n 16 ≡ true = ground arith in
    let here : (n == n) ≡ true = (==_iff n n).1 refl in
    let t = with_handler s n handler in
    let installed : irq_install_handler s (pos n) handler ≡ with_handler s n handler =
      ap (λ c. if c then with_handler s n handler else s) low in
    let removed : irq_uninstall_handler (with_handler s n handler) (pos n)
        ≡ with_handler (with_handler s n handler) n 0 =
      ap (λ c. if c then with_handler (with_handler s n handler) n 0 else with_handler s n handler)
        low in
    subst
      (λ (t : Interrupts).
        let u = irq_uninstall_handler t (pos n) in
        (irq_handler run t (n + 32)
          ≡ record (run handler t) { log = pic_send_eoi (run handler t).log n })
        × ((m : ℕ) → m ≢ n → t.irq_handlers m ≡ s.irq_handlers m)
        × (irq_handler run u (n + 32) ≡ record u { log = pic_send_eoi s.log n }))
      (sym installed)
      (
        irq_handler-runs run t n handler lt (rw here) ∙ rw (==-false_of_ne handler 0 real),
        λ m ne. ground arith,
        subst
            (λ (u : Interrupts).
              irq_handler run u (n + 32) ≡ record u { log = pic_send_eoi s.log n })
            (sym removed) (irq_handler-runs run (with_handler t n 0) n 0 lt (rw here)),
      )
