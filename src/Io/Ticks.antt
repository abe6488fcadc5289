-- ===== src/Io/Ticks.antt =====
-- `ksleep` and the divisor of core/io/timer.c.
use native.Mathlib.Nat.{div-lt_iff_lt-mul}
use nika_kernel.Prelude.{
  ℕ, zero, suc, ◌+◌, ◌-◌, ◌*◌, ◌/◌, ◌%◌, ◌^◌, ◌≤◌, ◌<◌, ◌≡◌, arith, ap, ◌∙◌, some, ◌∷◌, ltb,
  Bool-cases, inl, inr, bit_and, u8,
}
use nika_kernel.Prelude.Bits.{bit_and-low}
use nika_kernel.Io.{Log, wrote}
use nika_kernel.Io.Timer.{setup_pit, sleep_until, ksleep}

sleep_until-returns :
    (fuel : ℕ) (wake : ℕ → ℕ) (target ticks : ℕ)
    → ((t : ℕ) → t < target → t < wake t)
    → target - ticks < fuel
    → (end : ℕ) × (sleep_until fuel wake target ticks ≡ some end) × (target ≤ end)
unfolding sleep_until
sleep_until-returns zero wake target ticks moves enough = absurd (omega arith)
sleep_until-returns (suc fuel) wake target ticks moves enough =
    elim (Bool-cases (ltb ticks target)) [
      | inl early ↦
          let woken = moves ticks (ground arith) in
          rw early (sleep_until-returns fuel wake target (wake ticks) moves (ground arith))
      | inr late ↦ (ticks, rw late, ground arith)
    ]

-- While the ticks do not overflow and each `hlt` is followed by a tick at least, `ksleep` returns
-- after at most `ms` rounds, and not before `ms` ticks have passed.
pub ksleep-returns :
    (fuel : ℕ) (wake : ℕ → ℕ) (ticks ms : ℕ)
    → ticks + ms < 2 ^ 64
    → ((t : ℕ) → t < ticks + ms → t < wake t)
    → ms < fuel
    → (end : ℕ) × (ksleep fuel wake ticks ms ≡ some end) × (ticks + ms ≤ end)
unfolding ksleep
ksleep-returns fuel wake ticks ms room moves enough =
    let target : (ticks + ms) % 2 ^ 64 ≡ ticks + ms = omega arith in
    rw target (sleep_until-returns fuel wake (ticks + ms) ticks moves (omega arith))

-- For a frequency of at least 19, `__setup_pit` sends the command byte 0x36 and then the two bytes
-- of the divisor 1193182 / freq, the low one first, with nothing cut off.
pub setup_pit_lem :
    (log : Log) (freq : ℕ)
    → 19 ≤ freq
    → (low : ℕ) × (high : ℕ) × (setup_pit log freq
        ≡ wrote 0x40 high ∷ wrote 0x40 low ∷ wrote 0x43 0x36 ∷ log)
      × (low < 256)
      × (high < 256)
      × (high * 256 + low ≡ 1193182 / freq)
unfolding setup_pit
setup_pit_lem log freq bound =
    let div = 1193182 / freq in
    let small : div < 2 ^ 16 =
      (div-lt_iff_lt-mul {k = freq} {x = 1193182} {y = 2 ^ 16} (omega arith)).1 (omega arith) in
    (
      u8 (bit_and div 0xff),
      u8 (bit_and (div / 256) 0xff),
      ap (λ a. wrote 0x40 a ∷ wrote 0x40 (u8 (u8 (bit_and div 0xff))) ∷ wrote 0x43 0x36 ∷ log)
            {x = u8 (u8 (bit_and (div / 256) 0xff))} {y = u8 (bit_and (div / 256) 0xff)}
            (omega arith)
          ∙ ap
              (λ b.
                wrote 0x40 (u8 (bit_and (div / 256) 0xff)) ∷ wrote 0x40 b ∷ wrote 0x43 0x36 ∷ log)
              {x = u8 (u8 (bit_and div 0xff))} {y = u8 (bit_and div 0xff)} (omega arith),
      omega arith,
      omega arith,
      omega (arith, bit_and-low 8 div, bit_and-low 8 (div / 256)),
    )
