-- ===== src/Boot/Booted.antt =====
-- core/init.c: `kernel_init` and `kmain` on a machine without a framebuffer.
use nika_kernel.Prelude.{ℕ, ◌+◌, ◌-◌, ◌^◌, ◌≤◌, ◌<◌, ◌≡◌, true, some}
use nika_kernel.Pmm.{Pmm, page_size}
use nika_kernel.Heap.{Heap, header_size}
use nika_kernel.Paging.Walk.{walk}
use nika_kernel.Paging.Supply.{Supply}
use nika_kernel.Descriptors.{gdt_init, idt_init}
use nika_kernel.Ramfs.{root_path, fs_get_ops}
use nika_kernel.Io.{Device}
use nika_kernel.Boot.{Image, Boot}
use nika_kernel.Boot.Steps.{Settings}
use nika_kernel.Boot.Memory.{mapped}
use nika_kernel.Boot.Startup.{set_up, first_settings}

-- What `kernel_init` leaves, from the state `start` on.
pub record IsBooted (img : Image) (start s : Boot) : Type 0 where
  pub interrupts : s.interrupts_on ≡ true
  pub paging : s.kernel.machine.paging ≡ true
  pub translates :
      (v : ℕ)
      → v < 2 ^ 32
      → walk s.kernel.machine.word s.kernel.machine.kernel_page_dir v ≡ mapped v
  pub no_current : s.kernel.current_process ≡ 0
  pub no_process : s.kernel.process_list ≡ 0
  -- One free block, on a page inside the mapped memory.
  pub heap_block :
      s.kernel.heap.block s.kernel.heap.heap_start
      ≡ record { size = page_size - header_size; flags = 0; next = 0 }
  pub heap_mapped : s.kernel.heap.heap_start + page_size ≤ 0x800000
  pub heap_pages : s.kernel.machine.pmm ≡ s.kernel.heap.pmm
  pub segments : s.gdt ≡ gdt_init start.gdt img.gdt_ptr img.tss_ptr
  pub gates : s.idt ≡ idt_init start.idt img.idt_ptr img.page_fault_stub img.irq_stub
  pub timer : s.irqs.irq_handlers 0 ≡ img.timer_address
  pub keyboard : s.irqs.irq_handlers 1 ≡ img.keyboard_address
  pub mouse : s.irqs.irq_handlers 12 ≡ img.mouse_address
  pub available : s.ramfs.fs_true ≡ true
  pub root : fs_get_ops 4 s.ramfs root_path ≡ some img.ramfs_ops_address

module _ (device : Device) (img : Image) (start : Boot) (p : Pmm) where
  abbrev end_settings : Settings
  end_settings = set_up img (first_settings device img start p)
