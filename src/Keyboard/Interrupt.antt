-- ===== src/Keyboard/Interrupt.antt =====
-- drivers/kybrd.c with core/io/irq.c: an interrupt of the keyboard from the start to its end.
use nika_kernel.Prelude.{
  ℕ, ◌≡◌, ◌≢◌, refl, bit_and, not, ◌||◌, ◌∷◌, ◌==◌, ==-false_of_ne, ltb, if◌then◌else◌, get_or,
  Bool, true, false, arith,
}
use nika_kernel.Io.{Log, Device, wrote, was_read, x86read, irq_clearmask}
use nika_kernel.Io.Irq.{Interrupts, irq_handler}
use nika_kernel.Keyboard.{ky_scancodes, kybrd_handler, kybrd_init}

-- A test whose branches are the same.
if-same : (b : Bool) (x y : Log) → y ≡ x → (if b then x else y) ≡ x
if-same true x y e = refl
if-same false x y e = e

-- Whatever the scan code, the handler reads the port once and changes nothing else.
pub kybrd_handler_lem :
    (device : Device) (log : Log) → kybrd_handler device log ≡ was_read 0x60 ∷ log
unfolding kybrd_handler
kybrd_handler_lem device log =
    let code = (x86read device log 0x60).0 in
    let k = get_or ky_scancodes code 0 in
    let l = was_read 0x60 ∷ log in
    if-same (not (bit_and code 0x80 == 0)) l _ (
      if-same (not (ltb code 128)) l _ (
        if-same (k == 0) l _ (
          if-same (k == 10) l _ (if-same (k == 8) l _ (if-same ((k == 9) || (k == 27)) l l refl)))))

-- From `kybrd_init` on, with the handler's code at its address, which is not NULL, an interrupt of
-- line 1 reads the scan code and sends one end of interrupt, to the first controller: neither the
-- count of ticks nor the handler of another line changes.
pub kybrd_init-irq_handler :
    (device : Device) (handler : ℕ) (run : ℕ → Interrupts → Interrupts) (s : Interrupts)
    → handler ≢ 0
    → ((t : Interrupts) → run handler t ≡ record t { log = kybrd_handler device t.log })
    → let t = irq_handler run (kybrd_init device handler s) 33 in
      (t.log ≡ wrote 0x20 0x20 ∷ was_read 0x60 ∷ irq_clearmask device s.log 1)
      × (t.sys_ticks ≡ s.sys_ticks)
      × ((n : ℕ) → n ≢ 1 → t.irq_handlers n ≡ s.irq_handlers n)
unfolding irq_handler kybrd_init
kybrd_init-irq_handler device handler run s real code =
    let some_handler : (handler == 0) ≡ false = ==-false_of_ne handler 0 real in
    let t : Interrupts = record s {
      log = irq_clearmask device s.log 1;
      irq_handlers = λ j. if 1 == j then handler else s.irq_handlers j;
    } in
    (
      rw (some_handler, code t, kybrd_handler_lem device t.log),
      rw (some_handler, code t),
      λ n other. rw (some_handler, code t) (ground arith),
    )
