-- ===== src/Pci/Bridge.antt =====
-- drivers/pci.c: the scan over the buses where it reads a bridge.
use nika_kernel.Prelude.{ℕ, ◌≡◌, ◌≢◌}
use nika_kernel.Io.{Log, Device}
use nika_kernel.Pci.{Pci, get_vendor_id, get_base_class, get_sub_class}

-- What the scan reads for function 0 of `dev` on bus 0: a vendor that it takes for present, and class 6
-- and subclass 4. It reads the class at the address that `config_address` gives for offset 10, where the
-- product stands for the mask: register 0xd8 of another function, not the class register.
pub record ReadsBridge (device : Device) (dev : ℕ) : Type 0 where
  pub present : (a : Log) → (get_vendor_id device a 0 dev 0).0 ≢ 0xfff
  pub base : (a : Log) → (get_base_class device a 0 dev 0).0 ≡ 0x6
  pub sub : (a : Log) → (get_sub_class device a 0 dev 0).0 ≡ 0x4
