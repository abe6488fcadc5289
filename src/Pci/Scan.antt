-- ===== src/Pci/Scan.antt =====
-- drivers/pci.c: when the scan over the buses returns.
use nika_kernel.Prelude.{ℕ, zero, suc, ◌≡◌, ◌≢◌, arith, false, ◌&&◌, Option, some, ◌==◌}
use nika_kernel.Prelude.Returns.{Returns, Returns-some, returns_rules}
use nika_kernel.Io.{Log, Device}
use nika_kernel.Pci.{
  Pci, get_base_class, get_sub_class, check_function, check_functions, check_others, check_dev,
  check_devs, check_bus, check_hosts, check_all_buses, pcisub_init,
}

-- For no function does the scan read the class and subclass of a bridge.
abbrev pub ReadsNoBridge : Device → Type 0
ReadsNoBridge device =
    (a b : Log) (bus dev func : ℕ)
    → (get_base_class device a bus dev func).0 ≡ 0x6
    → (get_sub_class device b bus dev func).0 ≢ 0x4

no_match : (a b : ℕ) → (a ≡ 6 → b ≢ 4) → ((a == 6) && (b == 4)) ≡ false
no_match a b h = ground arith

module _ (check : ℕ → Pci → Option Pci) (device : Device) (plain : ReadsNoBridge device) where
  check_function-Returns :
      (bus dev func : ℕ) (s : Pci) → Returns (check_function check device bus dev func s)
  unfolding check_function
  check_function-Returns bus dev func s =
      let a = s.log in
      let base = get_base_class device a bus dev func in
      let sub = get_sub_class device base.1 bus dev func in
      let no_bridge = plain a base.1 bus dev func in
      let other : ((base.0 == 0x6) && (sub.0 == 0x4)) ≡ false = no_match base.0 sub.0 no_bridge in
      record { value = record s { log = sub.1 }; runs = rw other }

  check_functions-Returns :
      (more bus dev func : ℕ) (s : Pci) → Returns (check_functions more check device bus dev func s)
  unfolding check_functions
  check_functions-Returns zero bus dev func s = Returns-some s
  check_functions-Returns (suc more) bus dev func s =
      search (returns_rules, check_function-Returns, check_functions-Returns more)

  check_others-Returns : (bus dev : ℕ) (s : Pci) → Returns (check_others check device bus dev s)
  unfolding check_others
  check_others-Returns bus dev s = search (returns_rules, check_functions-Returns)

  check_dev-Returns : (bus dev : ℕ) (s : Pci) → Returns (check_dev check device bus dev s)
  unfolding check_dev
  check_dev-Returns bus dev s = search (returns_rules, check_function-Returns, check_others-Returns)

  check_devs-Returns :
      (more bus dev : ℕ) (s : Pci) → Returns (check_devs more check device bus dev s)
  unfolding check_devs
  check_devs-Returns zero bus dev s = Returns-some s
  check_devs-Returns (suc more) bus dev s =
      search (returns_rules, check_dev-Returns, check_devs-Returns more)

module _ (device : Device) (plain : ReadsNoBridge device) (fuel : ℕ) where
  check_bus-Returns : (bus : ℕ) (s : Pci) → Returns (check_bus (suc fuel) device bus s)
  unfolding check_bus
  check_bus-Returns bus s =
      check_devs-Returns (λ b t. check_bus fuel device b t) device plain 32 bus 0 s

  check_hosts-Returns :
      (more func : ℕ) (s : Pci) → Returns (check_hosts more (suc fuel) device func s)
  unfolding check_hosts
  check_hosts-Returns zero func s = Returns-some s
  check_hosts-Returns (suc more) func s =
      search (returns_rules, check_bus-Returns, check_hosts-Returns more)

  check_all_buses-Returns : (s : Pci) → Returns (check_all_buses (suc fuel) device s)
  unfolding check_all_buses
  check_all_buses-Returns s = search (returns_rules, check_bus-Returns, check_hosts-Returns)

-- Where the scan reads no bridge, the scan of the PCI buses returns 0, on hosts with one function and
-- with several.
pub pcisub_init-ReadsNoBridge :
    (fuel : ℕ) (device : Device) (s : Pci)
    → ReadsNoBridge device
    → (t : Pci) × (pcisub_init (suc fuel) device s ≡ some (0, t))
unfolding pcisub_init
pcisub_init-ReadsNoBridge fuel device s plain =
    let found = check_all_buses-Returns device plain fuel s in (found.value, rw found.runs)
