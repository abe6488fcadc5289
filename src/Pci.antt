-- ===== src/Pci.antt =====
-- drivers/pci.c: the configuration space of the PCI bus and the scan over its devices. A bus that the
-- scan enters takes one from the fuel: `none` is a scan that used it up. The warning is left out.
pub mod Address
pub mod Scan
pub mod Bridge
mod Tests
use nika_kernel.Prelude.{
  ℕ, zero, suc, ◌+◌, ◌*◌, bit_and, bit_or, not, ◌&&◌, Option, none, some, ◌==◌, ltb, if◌then◌else◌,
  u8, u16, u32, ◌<<<◌, ◌>>>◌,
}
use nika_kernel.Prelude.Fallible.{◌>>=◌}
use nika_kernel.Io.{Log, Device, x86write_long, x86read_long}

-- The variables of the file, and the ports.
pub record Pci : Type 0 where
  pub header_type : ℕ
  pub vendor_id : ℕ
  pub log : Log

-- A comparison stands where a shift of the bus would, and a product where a mask of the offset would.
unfoldable pub config_address : ℕ → ℕ → ℕ → ℕ → ℕ
config_address bus slot func offset = u32 (
    bit_or
      (bit_or (bit_or (bit_or (if ltb bus 16 then 1 else 0) (slot <<< 11)) (func <<< 8))
        (offset * 0xfc))
      0x80000000)

unfoldable pub config_read_word : Device → Log → ℕ → ℕ → ℕ → ℕ → ℕ × Log
unfolding config_address
config_read_word device log bus slot func offset =
    let asked = x86write_long log 0xcf8 (config_address bus slot func offset) in
    let data_read = x86read_long device asked 0xcfc in
    (u16 (bit_and (data_read.0 >>> (bit_and offset 2 * 8)) 0xffff), data_read.1)

abbrev pub get_vendor_id : Device → Log → ℕ → ℕ → ℕ → ℕ × Log
get_vendor_id device log bus slot func = config_read_word device log bus slot func 0x00

abbrev pub get_header_type : Device → Log → ℕ → ℕ → ℕ → ℕ × Log
get_header_type device log bus slot func =
    let val = config_read_word device log bus slot func 0x0e in (u8 (bit_and val.0 0xff), val.1)

abbrev pub get_base_class : Device → Log → ℕ → ℕ → ℕ → ℕ × Log
get_base_class device log bus slot func =
    let val = config_read_word device log bus slot func 0x0a in (u8 (val.0 >>> 8), val.1)

abbrev pub get_sub_class : Device → Log → ℕ → ℕ → ℕ → ℕ × Log
get_sub_class device log bus slot func =
    let val = config_read_word device log bus slot func 0x0a in (u8 (bit_and val.0 0xff), val.1)

-- The cast binds before the shift.
abbrev pub get_secondary_bus : Device → Log → ℕ → ℕ → ℕ → ℕ × Log
get_secondary_bus device log bus slot func =
    let val = config_read_word device log bus slot func 0x18 in (u8 val.0 >>> 8, val.1)

abbrev pub pci_check_vendor : Device → Log → ℕ → ℕ → ℕ × Log
pci_check_vendor device log bus slot = config_read_word device log bus slot 0 0

-- `checkFunction`, with `check_bus` for the bus behind a bridge.
unfoldable pub check_function : (ℕ → Pci → Option Pci) → Device → ℕ → ℕ → ℕ → Pci → Option Pci
check_function check_bus device bus dev func s =
    let base = get_base_class device s.log bus dev func in
    let sub = get_sub_class device base.1 bus dev func in
    let secondary = get_secondary_bus device sub.1 bus dev func in
    if (base.0 == 0x6) && (sub.0 == 0x4)
    then check_bus secondary.0 (record s { log = secondary.1 })
    else some (record s { log = sub.1 })

-- The loop of `checkDev` over the functions from `func` on.
unfoldable pub check_functions : ℕ → (ℕ → Pci → Option Pci) → Device → ℕ → ℕ → ℕ → Pci → Option Pci
unfolding check_function
check_functions zero check_bus device bus dev func s = some s
check_functions (suc more) check_bus device bus dev func s =
    let vendor = get_vendor_id device s.log bus dev func in
    let t = record s { log = vendor.1 } in
    (if vendor.0 == 0xffff then some t else check_function check_bus device bus dev func t) >>= λ u.
    check_functions more check_bus device bus dev (func + 1) u

-- `checkDev` behind the first call of `checkFunction`.
unfoldable pub check_others : (ℕ → Pci → Option Pci) → Device → ℕ → ℕ → Pci → Option Pci
unfolding check_functions
check_others check_bus device bus dev s =
    let header = get_header_type device s.log bus dev 0 in
    let t = record s { header_type = header.0; log = header.1 } in
    if not (bit_and header.0 0x80 == 0)
    then check_functions 7 check_bus device bus dev 1 t
    else some t

unfoldable pub check_dev : (ℕ → Pci → Option Pci) → Device → ℕ → ℕ → Pci → Option Pci
check_dev check_bus device bus dev s =
    let vendor = get_vendor_id device s.log bus dev 0 in
    let t = record s { vendor_id = vendor.0; log = vendor.1 } in
    if vendor.0 == 0xfff
    then some t
    else (check_function check_bus device bus dev 0 t >>= λ u.
        check_others check_bus device bus dev u)

-- The loop of `checkBus` from `dev` on.
unfoldable pub check_devs : ℕ → (ℕ → Pci → Option Pci) → Device → ℕ → ℕ → Pci → Option Pci
unfolding check_dev
check_devs zero check_bus device bus dev s = some s
check_devs (suc more) check_bus device bus dev s =
    check_dev check_bus device bus dev s >>= λ t. check_devs more check_bus device bus (dev + 1) t

unfoldable pub check_bus : ℕ → Device → ℕ → Pci → Option Pci
unfolding check_devs
check_bus zero device bus s = none
check_bus (suc fuel) device bus s = check_devs 32 (λ b t. check_bus fuel device b t) device bus 0 s

-- The loop of `checkAllBuses` over the functions of a host with several.
unfoldable pub check_hosts : ℕ → ℕ → Device → ℕ → Pci → Option Pci
unfolding check_bus
check_hosts zero fuel device func s = some s
check_hosts (suc more) fuel device func s =
    let vendor = get_vendor_id device s.log 0 0 func in
    let t = record s { log = vendor.1 } in
    if vendor.0 == 0xffff
    then some t
    else (check_bus fuel device func t >>= λ u. check_hosts more fuel device (func + 1) u)

unfoldable pub check_all_buses : ℕ → Device → Pci → Option Pci
unfolding check_bus check_hosts
check_all_buses fuel device s =
    let header = get_header_type device s.log 0 0 0 in
    let t = record s { header_type = header.0; log = header.1 } in
    if bit_and header.0 0x80 == 0 then check_bus fuel device 0 t else check_hosts 8 fuel device 0 t

-- It returns 0.
unfoldable pub pcisub_init : ℕ → Device → Pci → Option (ℕ × Pci)
unfolding check_all_buses
pcisub_init fuel device s = do t ← check_all_buses fuel device s; some (0, t)
