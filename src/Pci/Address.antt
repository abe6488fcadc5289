-- ===== src/Pci/Address.antt =====
-- drivers/pci.c: which register the address of a read names.
use nika_kernel.Prelude.{ℕ, ◌+◌, ◌*◌, ◌/◌, ◌%◌, ◌^◌, ◌<◌, ◌≡◌, arith, bit_or, ltb, if◌then◌else◌}
use nika_kernel.Prelude.Bits.{bit_or-field, bit_or-above, bit_or-split, zero_laws}
use nika_kernel.Pci.{config_address}

-- The bit at the place of the bus: it is the lowest one, which belongs to no register.
abbrev pub low_bit : ℕ → ℕ
low_bit bus = if ltb bus 16 then 1 else 0

-- The slot and the function behind the low bit.
fields :
    (b slot func : ℕ)
    → b < 256
    → func < 8
    → bit_or (bit_or b (slot * 2 ^ 11)) (func * 2 ^ 8) ≡ slot * 2 ^ 11 + func * 2 ^ 8 + b
fields b slot func small few =
    let first : bit_or b (slot * 2 ^ 11) ≡ slot * 2 ^ 11 + b =
      bit_or-above 11 slot b (omega arith) (omega arith) in
    let parts = bit_or-split 8 (slot * 2 ^ 11 + b) (func * 2 ^ 8) in
    let high : (slot * 2 ^ 11 + b) / 2 ^ 8 ≡ slot * 2 ^ 3 = omega arith in
    let low : (slot * 2 ^ 11 + b) % 2 ^ 8 ≡ b = omega arith in
    let whole : func * 2 ^ 8 / 2 ^ 8 ≡ func = omega arith in
    let rest : func * 2 ^ 8 % 2 ^ 8 ≡ 0 = omega arith in
    rw
      (
        first,
        parts,
        high,
        low,
        whole,
        rest,
        bit_or-field 3 slot func (omega arith) few,
        (zero_laws b).0,
      )
      (omega arith)

-- A read of the vendor goes to the slot and the function on bus 0 whatever bus it is for: the address
-- is theirs, with a low bit that says only whether the bus is below 16.
pub config_address-vendor :
    (bus slot func : ℕ)
    → slot < 32
    → func < 8
    → config_address bus slot func 0
      ≡ 0x80000000 + 0 * 2 ^ 16 + slot * 2 ^ 11 + func * 2 ^ 8 + low_bit bus
unfolding config_address
config_address-vendor bus slot func low few =
    let small : low_bit bus < 256 = ground arith in
    let joined = fields (low_bit bus) slot func small few in
    let word = slot * 2 ^ 11 + func * 2 ^ 8 + low_bit bus in
    let short : word < 2 ^ 31 = omega arith in
    rw (joined, (zero_laws word).0, bit_or-above 31 1 word (omega arith) short) (omega arith)
