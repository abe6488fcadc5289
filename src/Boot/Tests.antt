-- ===== src/Boot/Tests.antt =====
-- core/init.c at a small machine without a framebuffer.
use mathlib.Core.Path.{subst}
use nika_kernel.Prelude.{
  ℕ, suc, ◌^◌, ◌≤◌, ◌≡◌, refl, sym, ap, ◌∙◌, arith, true, false, Option, none, some, [], ◌==◌,
  if◌then◌else◌,
}
use nika_kernel.Prelude.Int.{ℤ, pos}
use nika_kernel.Prelude.Fallible.{eq_of_some}
use nika_kernel.Multiboot.{MultibootInfo}
use nika_kernel.Pmm.{Pmm, mark_used, mark_free, set_bit, clear_bit, alloc_page, page_free}
use nika_kernel.Pmm.Init.{pmm_init}
use nika_kernel.Paging.Supply.{Supply}
use nika_kernel.Io.Irq.{Interrupts}
use nika_kernel.Io.Timer.{timer_handler}
use nika_kernel.Io.{Device}
use nika_kernel.Process.{ready}
use nika_kernel.Ramfs.{no_function}
use nika_kernel.Boot.{Image, Boot}

abbrev no_pages : Pmm
no_pages = record { bitmap = λ i. 0; bitmap_size = 0; total_pages = 0; mem_map = [] }

abbrev start : Boot
start = record {
  interrupts_on = true;
  screen = record {
    byte = λ a. 0;
    gd_ok = 0;
    addr = 0;
    width = 0;
    height = 0;
    pitch = 0;
    bpp = 0;
    type = 0;
    color = 0xffffff;
    x = 0;
    y = 0;
  };
  console = record { cell = λ a. 0; vga = 0xb8000; x = 0; y = 0 };
  gdt = record {
    gdt = λ i. record {
      limit_low = 0;
      base_low = 0;
      base_middle = 0;
      access = 0;
      granularity = 0;
      base_high = 0;
    };
    gdtp = record { limit = 0; base = 0 };
    tss = record {
      esp0 = 0;
      ss0 = 0;
      cs = 0;
      ss = 0;
      ds = 0;
      es = 0;
      fs = 0;
      gs = 0;
      iomap_base = 0;
    };
  };
  idt = record {
    idt = λ i. record { base_low = 0; selector = 0; always0 = 0; flags = 0; base_high = 0 };
    idtp = record { limit = 0; base = 0 };
  };
  irqs = record { log = []; irq_handlers = λ n. 0; sys_ticks = 0 };
  kernel = record {
    machine = record {
      pmm = no_pages;
      word = λ a. 0;
      kernel_page_dir = 0;
      cr3 = 0;
      paging = false;
    };
    heap = record {
      pmm = no_pages;
      block = λ a. record { size = 0; flags = 0; next = 0 };
      heap_start = 0;
      heap_end = 0;
      heap_limit = 0;
    };
    process = λ a. record {
      pid = 0;
      eip = 0;
      esp = 0;
      ebp = 0;
      page_dir = 0;
      page_dir_phys = 0;
      status = ready;
      eflags = 0;
      next = 0;
    };
    current_process = 0;
    process_list = 0;
    next_pid = 1;
  };
  ramfs = record {
    fs_true = false;
    ramfs_ops = record {
      create = no_function;
      write = no_function;
      read = no_function;
      list = no_function;
    };
    ramfs_files = λ i. record { name = λ j. 0; data_ptr = 0; size = 0 };
    ramfs_file_count = 0;
    mounts = λ i. record { path = λ j. 0; ops = 0 };
    mount_count = 0;
    heap = record {
      pmm = no_pages;
      block = λ a. record { size = 0; flags = 0; next = 0 };
      heap_start = 0;
      heap_end = 0;
      heap_limit = 0;
    };
    memory = λ a. 0;
  };
  header_type = 0;
  vendor_id = 0;
}

abbrev loader : MultibootInfo
loader = record {
  flags = 64;
  mmap_length = 24;
  mmap_addr = 0x9000;
  framebuffer_addr = 0;
  framebuffer_pitch = 0;
  framebuffer_width = 0;
  framebuffer_height = 0;
  framebuffer_bpp = 0;
  framebuffer_type = 0;
}

abbrev image : Image
image = record {
  font = λ c row. 0x18;
  entry_at = λ a. record { size = 20; addr = 0x1000; len = 0xf000; type = 1 };
  kernel_start = 0x200000;
  kernel_end = 0x203000;
  gdt_ptr = 0x201000;
  tss_ptr = 0x201100;
  idt_ptr = 0x201200;
  page_fault_stub = 0x200100;
  irq_stub = λ n. 0x200200;
  timer_address = 0x200300;
  keyboard_address = 0x200400;
  mouse_address = 0x200500;
  ramfs_ops_address = 0x202000;
}

-- A machine whose ports all read 0.
abbrev quiet : Device
quiet log port = 0

abbrev state_of : Option (ℤ × Pmm) → Pmm
state_of none = no_pages
state_of (some (code, t)) = t

abbrev first_pages : Pmm
first_pages =
    state_of (pmm_init (suc (2 ^ 20)) 0x200000 0x203000 image.entry_at loader 0x2badb002 no_pages)

first_pages_returns :
    pmm_init (suc (2 ^ 20)) 0x200000 0x203000 image.entry_at loader 0x2badb002 no_pages
    ≡ some (pos 0, first_pages)
unfolding pmm_init mark_used set_bit mark_free clear_bit
first_pages_returns = refl

first_pages_supply : (first_pages.total_pages ≤ 2048) × Supply 3 first_pages
unfolding pmm_init mark_used mark_free set_bit clear_bit alloc_page page_free
first_pages_supply = (omega arith, (omega arith, (omega arith, (omega arith, tt))))

memory :
    (p : Pmm)
    → pmm_init (suc (2 ^ 20)) 0x200000 0x203000 image.entry_at loader 0x2badb002 no_pages
      ≡ some (pos 0, p)
    → (p.total_pages ≤ 2048) × Supply 3 p
memory p e =
    subst (λ q. (q.total_pages ≤ 2048) × Supply 3 q)
      (ap (λ (x : ℤ × Pmm). x.1) (eq_of_some (sym first_pages_returns ∙ e))) first_pages_supply

-- The handlers' code: that of the timer, and nothing at another address.
abbrev run : ℕ → Interrupts → Interrupts
run address i = if address == 0x200300 then timer_handler i else i
