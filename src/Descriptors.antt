-- ===== src/Descriptors.antt =====
-- core/gdt.c and core/idt.c: the tables of segment and interrupt descriptors. The address of a
-- variable or of an assembly routine is a parameter; the loads of the tables change no state here.
pub mod Fields
pub mod Gates
mod Tests
use nika_kernel.Prelude.{
  ℕ, zero, suc, ◌+◌, ◌-◌, ◌*◌, ◌<◌, bit_and, bit_or, ◌==◌, ltb, if◌then◌else◌, u8, u16, u32, ◌>>>◌,
}

pub record GdtEntry : Type 0 where
  pub limit_low : ℕ
  pub base_low : ℕ
  pub base_middle : ℕ
  pub access : ℕ
  pub granularity : ℕ
  pub base_high : ℕ

-- `gdt_ptr_t` and `idt_ptr_t`
pub record TablePtr : Type 0 where
  pub limit : ℕ
  pub base : ℕ

-- The fields of `tss_entry_t` that the file sets to other than 0.
pub record TssEntry : Type 0 where
  pub esp0 : ℕ
  pub ss0 : ℕ
  pub cs : ℕ
  pub ss : ℕ
  pub ds : ℕ
  pub es : ℕ
  pub fs : ℕ
  pub gs : ℕ
  pub iomap_base : ℕ

pub record Gdt : Type 0 where
  pub gdt : ℕ → GdtEntry
  pub gdtp : TablePtr
  pub tss : TssEntry

abbrev pub tss_size : ℕ
tss_size = 104

unfoldable pub gdt_entry : ℕ → ℕ → ℕ → ℕ → GdtEntry
gdt_entry base limit access gran = record {
  limit_low = u16 (bit_and limit 0xffff);
  base_low = u16 (bit_and base 0xffff);
  base_middle = u8 (bit_and (base >>> 16) 0xff);
  access = access;
  granularity = u8 (bit_or (bit_and (limit >>> 16) 0x0f) (bit_and gran 0xf0));
  base_high = u8 (bit_and (base >>> 24) 0xff);
}

unfoldable pub gdt_set_gate : Gdt → ℕ → ℕ → ℕ → ℕ → ℕ → Gdt
gdt_set_gate s num base limit access gran = record s {
  gdt = λ i. if num == i then gdt_entry base limit access gran else s.gdt i;
}

-- `tss_ptr` is `&tss`.
unfoldable pub tss_init : Gdt → ℕ → ℕ → ℕ → ℕ → Gdt
tss_init s tss_ptr idx ss0 esp0 =
    record (gdt_set_gate s idx (u32 tss_ptr) (tss_size - 1) 0x89 0x40) {
      tss = record {
        esp0 = esp0;
        ss0 = ss0;
        cs = 0x0b;
        ss = 0x13;
        ds = 0x13;
        es = 0x13;
        fs = 0x13;
        gs = 0x13;
        iomap_base = tss_size;
      };
    }

abbrev pub set_kernel_stack : Gdt → ℕ → Gdt
set_kernel_stack s stack = record s { tss = record s.tss { esp0 = stack } }

-- `gdt_ptr` is `&gdt`.
unfoldable pub gdt_init : Gdt → ℕ → ℕ → Gdt
unfolding gdt_set_gate tss_init
gdt_init s gdt_ptr tss_ptr =
    let a = record s { gdtp = record { limit = 8 * 6 - 1; base = u32 gdt_ptr } } in
    let b = gdt_set_gate a 0 0 0 0 0 in
    let c = gdt_set_gate b 1 0 0xffffffff 0x9a 0xcf in
    let d = gdt_set_gate c 2 0 0xffffffff 0x92 0xcf in
    let e = gdt_set_gate d 3 0 0xffffffff 0xfa 0xcf in
    let f = gdt_set_gate e 4 0 0xffffffff 0xf2 0xcf in tss_init f tss_ptr 5 0x10 0x0

pub record IdtEntry : Type 0 where
  pub base_low : ℕ
  pub selector : ℕ
  pub always0 : ℕ
  pub flags : ℕ
  pub base_high : ℕ

pub record Idt : Type 0 where
  pub idt : ℕ → IdtEntry
  pub idtp : TablePtr

abbrev pub idt_entries : ℕ
idt_entries = 256

unfoldable pub idt_entry : ℕ → ℕ → ℕ → IdtEntry
idt_entry base selector flags = record {
  base_low = u16 (bit_and base 0xffff);
  selector = selector;
  always0 = 0;
  flags = flags;
  base_high = u16 (bit_and (base >>> 16) 0xffff);
}

unfoldable pub idt_set_gate : Idt → ℕ → ℕ → ℕ → ℕ → Idt
idt_set_gate s num base selector flags = record s {
  idt = λ i. if num == i then idt_entry base selector flags else s.idt i;
}

-- The calls for the interrupt lines from `i` on, `n` of them: `irq` has the addresses of the stubs.
unfoldable pub irq_gates : ℕ → ℕ → (ℕ → ℕ) → Idt → Idt
unfolding idt_set_gate
irq_gates zero i irq s = s
irq_gates (suc n) i irq s = irq_gates n (i + 1) irq (idt_set_gate s (32 + i) (irq i) 0x08 0x8e)

unfoldable pub idt_init : Idt → ℕ → ℕ → (ℕ → ℕ) → Idt
idt_init s idt_ptr page_fault_stub irq =
    let empty : IdtEntry = record {
      base_low = 0;
      selector = 0;
      always0 = 0;
      flags = 0;
      base_high = 0;
    } in
    let cleared = record s {
      idtp = record { limit = 8 * idt_entries - 1; base = u32 idt_ptr };
      idt = λ i. if ltb i idt_entries then empty else s.idt i;
    } in
    irq_gates 16 0 irq (idt_set_gate cleared 14 page_fault_stub 0x08 0x8e)
