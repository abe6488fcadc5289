-- ===== src/Io/Masks.antt =====
-- The masks of interrupt lines in core/hal.c.
use mathlib.Core.Path.{subst}
use nika_kernel.Prelude.{
  ℕ, ◌%◌, ◌<◌, ◌≡◌, arith, ap, ◌∙◌, true, false, not, ◌&&◌, ◌||◌, ◌∷◌, ◌==◌, ltb, if◌then◌else◌, u8,
  u16,
}
use nika_kernel.Prelude.Bytes.{bit_clear, set_in_byte, clear_in_byte, byte_bits}
use nika_kernel.Io.{Log, Device, wrote, was_read, mask_port, mask_bit, irq_setmask, irq_clearmask}

-- A mask that is read at a port and written back with the line's bit changed.
mask_write : (ℕ → ℕ → ℕ) → Device → Log → ℕ → ℕ → Log
mask_write change device log line p =
    wrote p (change (u8 (device log p)) (mask_bit line)) ∷ was_read p ∷ log

-- The bit of a line is its number at its controller.
mask_bit_lem : (line : ℕ) → line < 16 → mask_bit line ≡ line % 8
mask_bit_lem line lt = ground arith

-- For a line below 16, `x86IRQ_setmask` and `x86IRQ_clearmask` read the mask at port 0x21 for a line
-- below 8 and at 0xa1 for another, and write it back with the bit `line % 8` set, and cleared, and every
-- other bit as it was; `x86IRQ_setmask` does nothing for a line above 15.
pub irq_setmask-irq_clearmask :
    (device : Device) (log : Log) (line : ℕ)
    → let port : ℕ = if ltb line 8 then 0x21 else 0xa1 in
      let old = u8 (device log port) in
      (line < 16
        → (v : ℕ) × (w : ℕ) × (irq_setmask device log line ≡ wrote port v ∷ was_read port ∷ log)
          × (irq_clearmask device log line ≡ wrote port w ∷ was_read port ∷ log)
          × ((j : ℕ)
              → j < 8
              → (bit_clear v j ≡ (not (line % 8 == j) && bit_clear old j))
                × (bit_clear w j ≡ ((line % 8 == j) || bit_clear old j))))
      × (15 < line → irq_setmask device log line ≡ log)
unfolding irq_setmask irq_clearmask mask_write set_in_byte clear_in_byte
irq_setmask-irq_clearmask device log line =
    let port = mask_port line in
    let old = u8 (device log port) in
    let word : u16 port ≡ port = ground arith in
    let same : u8 (device log (u16 port)) ≡ old = ap (λ (p : ℕ). u8 (device log p)) word in
    (
      λ lt.
          let low : ltb 15 line ≡ false = ground arith in
          (
            set_in_byte old (mask_bit line),
            clear_in_byte old (mask_bit line),
            ap (λ c. if c then log else mask_write set_in_byte device log line (u16 port)) low
                ∙ ap (mask_write set_in_byte device log line) word,
            ap (mask_write clear_in_byte device log line) word,
            λ j small.
                subst
                  (λ b.
                    (bit_clear (set_in_byte old (mask_bit line)) j
                      ≡ (not (b == j) && bit_clear old j))
                    × (bit_clear (clear_in_byte old (mask_bit line)) j
                        ≡ ((b == j) || bit_clear old j)))
                  (mask_bit_lem line lt)
                  (byte_bits old (mask_bit line) j (omega arith) (ground arith) small),
          ),
      λ high. let above : ltb 15 line ≡ true = ground arith in rw above,
    )
