-- ===== src/Descriptors/Tests.antt =====
-- Runs of core/gdt.c and core/idt.c, and their theorems there.
use nika_kernel.Prelude.{ℕ, ◌/◌, ◌%◌, ◌^◌, ◌≡◌, ◌≢◌, arith}
use nika_kernel.Descriptors.{Gdt, Idt, gdt_set_gate}
use nika_kernel.Descriptors.Fields.{segment_base, segment_limit, gdt_set_gate-fields}

abbrev empty_gdt : Gdt
empty_gdt = record {
  gdt = λ i. record {
    limit_low = 0;
    base_low = 0;
    base_middle = 0;
    access = 0;
    granularity = 0;
    base_high = 0;
  };
  gdtp = record { limit = 0; base = 0 };
  tss = record {
    esp0 = 0;
    ss0 = 0;
    cs = 0;
    ss = 0;
    ds = 0;
    es = 0;
    fs = 0;
    gs = 0;
    iomap_base = 0;
  };
}

abbrev empty_idt : Idt
empty_idt = record {
  idt = λ i. record { base_low = 0; selector = 0; always0 = 0; flags = 0; base_high = 0 };
  idtp = record { limit = 0; base = 0 };
}

gdt_set_gate-fields_example :
    let t = gdt_set_gate empty_gdt 1 0x12345678 0xffffffff 0x9a 0xcf in
    (segment_base (t.gdt 1) ≡ 0x12345678)
    × (segment_limit (t.gdt 1) ≡ 0xffffffff % 2 ^ 20)
    × ((t.gdt 1).access ≡ 0x9a)
    × ((t.gdt 1).granularity / 16 ≡ 0xcf / 16)
    × ((i : ℕ) → 1 ≢ i → t.gdt i ≡ empty_gdt.gdt i)
gdt_set_gate-fields_example =
    gdt_set_gate-fields empty_gdt 1 0x12345678 0xffffffff 0x9a 0xcf (omega arith) (omega arith)
