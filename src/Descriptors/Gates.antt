-- ===== src/Descriptors/Gates.antt =====
-- The gates that `idt_init` of core/idt.c leaves.
use nika_kernel.Prelude.{
  ℕ, zero, suc, ◌+◌, ◌-◌, ◌*◌, ◌/◌, ◌^◌, ◌≤◌, ◌<◌, ◌≡◌, ◌≢◌, arith, ap, ◌∙◌, ◌&&◌, ◌==◌, ltb, leb,
  ◌⊎◌, inl, inr, Bool-cases, if◌then◌else◌,
}
use nika_kernel.Prelude.Bits.{bit_and-low}
use nika_kernel.Descriptors.{IdtEntry, Idt, idt_entry, idt_set_gate, irq_gates, idt_init}

-- Where the gate leads.
abbrev pub gate_offset : IdtEntry → ℕ
gate_offset e = e.base_low + e.base_high * 2 ^ 16

gate_offset-idt_entry :
    (base selector flags : ℕ) → base < 2 ^ 32 → gate_offset (idt_entry base selector flags) ≡ base
unfolding idt_entry
gate_offset-idt_entry base selector flags word =
    omega (arith, bit_and-low 16 base, bit_and-low 16 (base / 65536))

irq_gates_lem :
    (n i : ℕ) (irq : ℕ → ℕ) (s : Idt) (v : ℕ)
    → (irq_gates n i irq s).idt v ≡ (
        if leb (32 + i) v && ltb v (32 + i + n)
        then idt_entry (irq (v - 32)) 0x08 0x8e
        else s.idt v)
unfolding irq_gates idt_set_gate
irq_gates_lem zero i irq s v = ground arith
irq_gates_lem (suc n) i irq s v =
    irq_gates_lem n (i + 1) irq (idt_set_gate s (32 + i) (irq i) 0x08 0x8e) v
    ∙ elim (Bool-cases (32 + i == v)) [
      | inl here ↦ let index : v - 32 ≡ i = ground arith in ground (arith, ap irq index)
      | inr other ↦ ground arith
    ]

-- After `idt_init`, with addresses below 2^32: vector 14 leads to the page fault stub and the
-- vectors 32 to 47 to the stubs of the sixteen lines, in the kernel's code segment and present; the
-- gate of every other vector of the 256 is not present.
pub idt_init-gates :
    (s : Idt) (idt_ptr page_fault_stub : ℕ) (irq : ℕ → ℕ)
    → page_fault_stub < 2 ^ 32
    → ((i : ℕ) → irq i < 2 ^ 32)
    → let t = idt_init s idt_ptr page_fault_stub irq in
      (gate_offset (t.idt 14) ≡ page_fault_stub)
      × ((t.idt 14).selector ≡ 0x08)
      × ((t.idt 14).flags ≡ 0x8e)
      × ((i : ℕ)
          → i < 16
          → (gate_offset (t.idt (32 + i)) ≡ irq i)
            × ((t.idt (32 + i)).selector ≡ 0x08)
            × ((t.idt (32 + i)).flags ≡ 0x8e))
      × ((v : ℕ) → v < 256 → v ≢ 14 → (v < 32) ⊎ (48 ≤ v) → (t.idt v).flags ≡ 0)
unfolding idt_init idt_set_gate idt_entry
idt_init-gates s idt_ptr page_fault_stub irq stub_word words = (
  ap gate_offset at_14 ∙ gate_offset-idt_entry page_fault_stub 0x08 0x8e stub_word,
  ap (λ (e : IdtEntry). e.selector) at_14,
  ap (λ (e : IdtEntry). e.flags) at_14,
  λ i lt. (
    ap gate_offset (at_line i lt) ∙ gate_offset-idt_entry (irq i) 0x08 0x8e (words i),
    ap (λ (e : IdtEntry). e.selector) (at_line i lt),
    ap (λ (e : IdtEntry). e.flags) (at_line i lt),
  ),
  λ v lt ne out. ap (λ (e : IdtEntry). e.flags) (irq_gates_lem 16 0 irq _ v) ∙ ground arith,
)
  where
    t : Idt
    t = idt_init s idt_ptr page_fault_stub irq

    at_14 : t.idt 14 ≡ idt_entry page_fault_stub 0x08 0x8e
    at_14 = unfold idt_init idt_set_gate in irq_gates_lem 16 0 irq _ 14

    at_line : (i : ℕ) → i < 16 → t.idt (32 + i) ≡ idt_entry (irq i) 0x08 0x8e
    at_line i lt =
        unfold idt_init in
        irq_gates_lem 16 0 irq _ (32 + i)
        ∙ ground (arith, ap irq {x = 32 + i - 32} {y = i} (omega arith))
