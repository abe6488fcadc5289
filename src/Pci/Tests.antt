-- ===== src/Pci/Tests.antt =====
-- Runs of drivers/pci.c, and its theorems at two devices.
use nika_kernel.Prelude.{◌+◌, ◌*◌, ◌≡◌, refl, arith, []}
use nika_kernel.Io.{Device}
use nika_kernel.Pci.{Pci, config_address, config_read_word}
use nika_kernel.Pci.Scan.{ReadsNoBridge}

-- A bus with no device, and one where each register shows a bridge.
abbrev empty_bus : Device
empty_bus log port = 0xffffffff

abbrev all_bridges : Device
all_bridges log port = 0x06040001

abbrev at_start : Pci
at_start = record { header_type = 0; vendor_id = 0; log = [] }

empty_bus-ReadsNoBridge : ReadsNoBridge empty_bus
unfolding config_read_word
empty_bus-ReadsNoBridge a b bus dev func base sub = ground arith

-- The register 8 of slot 0 is asked for, and a register of slot 3 is named.
wrong_register : config_address 0 0 0 8 ≡ 0x80000000 + 8 * 0xfc + 1
unfolding config_address
wrong_register = refl
