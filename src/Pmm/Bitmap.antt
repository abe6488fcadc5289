-- ===== src/Pmm/Bitmap.antt =====
-- What setting and clearing a bit of the bitmap of memory/pmm.c does to each page.
use nika_kernel.Prelude.{ℕ, ◌/◌, ◌%◌, ◌<◌, ◌≡◌, arith, not, ◌&&◌, ◌||◌, ◌==◌}
use nika_kernel.Prelude.Bytes.{bit_clear, set_in_byte, clear_in_byte, byte_bits}
use nika_kernel.Pmm.{Pmm, page_free, set_bit, clear_bit}

-- Every cell of the bitmap holds a byte.
abbrev pub IsBytes : Pmm → Type 0
IsBytes s = (i : ℕ) → s.bitmap i < 256

pub set_bit-IsBytes : (s : Pmm) (p : ℕ) → IsBytes s → IsBytes (set_bit s p)
unfolding set_bit
set_bit-IsBytes s p h i = ground (arith, h i)

pub clear_bit-IsBytes : (s : Pmm) (p : ℕ) → IsBytes s → IsBytes (clear_bit s p)
unfolding clear_bit
clear_bit-IsBytes s p h i = ground (arith, h i)

pub page_free-set_bit :
    (s : Pmm) (p q : ℕ) → IsBytes s → page_free (set_bit s p) q ≡ (not (p == q) && page_free s q)
unfolding page_free set_bit bit_clear set_in_byte
page_free-set_bit s p q h =
    ground
      (arith, byte_bits (s.bitmap (p / 8)) (p % 8) (q % 8) (h (p / 8)) (omega arith) (omega arith))

pub page_free-clear_bit :
    (s : Pmm) (p q : ℕ) → IsBytes s → page_free (clear_bit s p) q ≡ ((p == q) || page_free s q)
unfolding page_free clear_bit bit_clear clear_in_byte
page_free-clear_bit s p q h =
    ground
      (arith, byte_bits (s.bitmap (p / 8)) (p % 8) (q % 8) (h (p / 8)) (omega arith) (omega arith))
