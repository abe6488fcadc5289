-- ===== src/Serial/Tests.antt =====
-- Runs of lib/serial.c, and its theorem on numbers there.
use nika_kernel.Prelude.{ℕ, ◌≤◌, ◌≡◌, refl, arith, some, List, [], ◌∷◌, length, get_or}
use nika_kernel.Prelude.Int.{pos, negsuc}
use nika_kernel.Io.{Device, wrote, was_read}
use nika_kernel.Serial.{serial_write, serial_write_byte, itoa, ptoa}
use nika_kernel.CString.{Buffer}
use nika_kernel.Serial.{serial_printf}
use nika_kernel.Serial.Bytes.{send_all, format}
use nika_kernel.Serial.Printf.{serial_printf-format}
use nika_kernel.Serial.Numbers.{read_number, itoa-ptoa}

abbrev empty : Device
empty log port = 0x20

-- A line feed is sent twice.
line_feed :
    serial_write 1 empty [] (10 ∷ [])
    ≡ some (
        wrote 0x3f8 10
        ∷ was_read 0x3fd
        ∷ wrote 0x3f8 10
        ∷ was_read 0x3fd
        ∷ wrote 0x3f8 13
        ∷ was_read 0x3fd
        ∷ [])
unfolding serial_write serial_write_byte
line_feed = refl

minus_42 : itoa 32 (negsuc 41) 10 ≡ some (45 ∷ 52 ∷ 50 ∷ [])
unfolding itoa
minus_42 = refl

itoa-ptoa_example :
    ((out : List ℕ) × (itoa 32 (pos 41) 7 ≡ some out)
      × (read_number 7 0 out ≡ 41)
      × (length out ≤ 32))
    × ((out : List ℕ) × (itoa 32 (negsuc 41) 10 ≡ some (45 ∷ out))
        × (read_number 10 0 out ≡ 42)
        × (length out ≤ 31))
    × ((out : List ℕ) × (ptoa 32 41 ≡ some (48 ∷ 120 ∷ out)) × (read_number 16 0 out ≡ 41))
itoa-ptoa_example = itoa-ptoa 31 7 41 (omega arith) (omega arith) (omega arith)

-- The characters of "%s\n".
abbrev greeting : List ℕ
greeting = 37 ∷ 115 ∷ 10 ∷ []

abbrev greeting_text : Buffer
greeting_text j = get_or greeting j 0

abbrev hi : ℕ → List ℕ
hi p = 104 ∷ 105 ∷ []

greeting_bytes : format hi (λ k. 0x5000) 0 greeting ≡ some (104 ∷ 105 ∷ 13 ∷ 10 ∷ [])
unfolding format
greeting_bytes = refl

serial_printf-format_example :
    (out : List ℕ) × (format hi (λ k. 0x5000) 0 greeting ≡ some out)
    × (serial_printf 9 hi empty greeting_text (λ k. 0x5000) [] ≡ some (send_all out []))
serial_printf-format_example =
    serial_printf-format 8 empty hi greeting_text (λ k. 0x5000) greeting [] (λ log e. ground arith)
      (λ k. omega arith) (omega arith) (omega arith) (ground arith)
