-- ===== src/Paging/Tests.antt =====
-- Runs of memory/paging.c at small inputs, and its theorems there.
use nika_kernel.Prelude.{
  ℕ, ◌*◌, ◌/◌, ◌^◌, ◌<◌, ◌≡◌, ◌==◌, inr, refl, arith, true, false, some, none, [], ltb,
  if◌then◌else◌,
}
use nika_kernel.Pmm.{page_free, set_bit, alloc_page}
use nika_kernel.Paging.{Machine, map_page, init_pages, page_fault_handler}
use nika_kernel.Paging.Fault.{page_fault_handler-walk}
use nika_kernel.Paging.Walk.{walk, HasTables}
use nika_kernel.Paging.Map.{entry_bits, map_page-walk}
use nika_kernel.Paging.Supply.{Supply}
use nika_kernel.Paging.Identity.{init_pages-walk}

-- Pages 4, 12, 20 and 28 are free, and memory holds zeros.
abbrev machine : Machine
machine = record {
  pmm = record { bitmap = λ i. 0xef; bitmap_size = 4; total_pages = 32; mem_map = [] };
  word = λ _. 0;
  kernel_page_dir = 0;
  cr3 = 0;
  paging = false;
}

machine-HasTables : HasTables machine 0x5000
machine-HasTables = record {
  bytes = λ i. omega arith;
  bound = omega arith;
  words = λ a. omega arith;
  aligned = refl;
  dir_used = unfold page_free in refl;
  table_used = λ i lt on. absurd (omega arith);
  apart = λ i j lt lt' ne on on'. absurd (omega arith);
}

first_page : (alloc_page machine.pmm).0 ≡ 0x4000
first_page = unfold alloc_page page_free in refl

map_page-walk_example :
    HasTables (map_page machine 0x5000 0x400123 0x7000 3) 0x5000
    × ((v : ℕ)
        → v < 2 ^ 32
        → walk (map_page machine 0x5000 0x400123 0x7000 3).word 0x5000 v ≡ (
            if v / 4096 == 0x400123 / 4096
            then some (0x7000, entry_bits 3)
            else walk machine.word 0x5000 v))
map_page-walk_example =
    map_page-walk machine 0x5000 0x400123 0x7000 3 machine-HasTables (omega arith) (omega arith)
      (omega arith) (inr (omega (arith, first_page)))

supply : Supply 3 machine.pmm
supply = unfold alloc_page page_free set_bit in (omega arith, (omega arith, (omega arith, tt)))

init_pages-walk_example :
    let t = init_pages machine in
    (t.paging ≡ true)
    × (t.cr3 ≡ t.kernel_page_dir)
    × HasTables t t.kernel_page_dir
    × ((v : ℕ)
        → v < 2 ^ 32
        → walk t.word t.kernel_page_dir v
          ≡ (if ltb v 0x800000 then some (v / 4096 * 4096, 3) else none))
init_pages-walk_example =
    init_pages-walk machine (λ i. omega arith) (omega arith) (λ a. omega arith) supply

page_fault_handler-walk_example :
    let t = page_fault_handler machine 0x5000 2 0x400123 in
    (page_free machine.pmm ((alloc_page machine.pmm).0 / 4096) ≡ true)
    × (page_free t.pmm ((alloc_page machine.pmm).0 / 4096) ≡ false)
    × HasTables t 0x5000
    × ((v : ℕ)
        → v < 2 ^ 32
        → walk t.word 0x5000 v ≡ (
            if v / 4096 == 0x400123 / 4096
            then some ((alloc_page machine.pmm).0, 7)
            else walk machine.word 0x5000 v))
page_fault_handler-walk_example =
    page_fault_handler-walk machine 0x5000 2 0x400123 machine-HasTables (omega arith) supply.0
      supply.1.0
