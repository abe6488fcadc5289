-- ===== src/Boot.antt =====
-- core/init.c: the boot sequence, over all other parts. Each part keeps its own view of memory.
pub mod Texts
pub mod Printing
pub mod Idle
pub mod Steps
pub mod Startup
pub mod Memory
pub mod Booted
mod Tests
use nika_kernel.Prelude.{
  ℕ, zero, suc, ◌*◌, Bool, true, false, not, Option, none, some, List, if◌then◌else◌,
}
use nika_kernel.Prelude.Fallible.{◌>>=◌}
use nika_kernel.Prelude.Int.{ℤ, pos}
use nika_kernel.Multiboot.{MultibootInfo, MmapEntry}
use nika_kernel.CString.{Buffer}
use nika_kernel.Pmm.Init.{pmm_init}
use nika_kernel.Paging.{init_pages, map_framebuffer}
use nika_kernel.Heap.{heap_init}
use nika_kernel.Process.{Kernel, heap_of, schedule, fork}
use nika_kernel.Ramfs.{Ramfs, is_zero, ramfs_init, ramfs_mount, root_path}
use nika_kernel.Io.{Device, halt}
use nika_kernel.Io.Pic.{pic_init}
use nika_kernel.Io.Irq.{Interrupts, irq_install_handler}
use nika_kernel.Io.Timer.{pit_init}
use nika_kernel.Mouse.{mouse_init}
use nika_kernel.Keyboard.{kybrd_init}
use nika_kernel.Descriptors.{Gdt, Idt, gdt_init, idt_init}
use nika_kernel.Console.{Console, vga_width, vga_height, init_stdio, early_log}
use nika_kernel.Gd.{GdStatus, gsuccess, gerror, Screen, gd_init}
use nika_kernel.Gd.Text.{Font, k_debug}
use nika_kernel.Pci.{Pci, pcisub_init}
use nika_kernel.Boot.Texts.{
  string, info_format, warn_format, pmm_error, mapping_vga, done_text, heap_text, keyboard_text,
  mouse_text, video_text, pci_text, fork_text, ramfs_text, fault_text, booted_text, paging_text,
  ramfs_ready, mounting_text, mounted_text,
}

pub data KernelStatus : Type 0 where
  kernel_success : KernelStatus
  kernel_fault : KernelStatus

-- What stands outside the C code: the font, the memory map of the loader, the addresses of the
-- linker and those of the assembly stubs, of the handlers and of the tables.
pub record Image : Type 0 where
  pub font : Font
  pub entry_at : ℕ → MmapEntry
  pub kernel_start : ℕ
  pub kernel_end : ℕ
  pub gdt_ptr : ℕ
  pub tss_ptr : ℕ
  pub idt_ptr : ℕ
  pub page_fault_stub : ℕ
  pub irq_stub : ℕ → ℕ
  pub timer_address : ℕ
  pub keyboard_address : ℕ
  pub mouse_address : ℕ
  pub ramfs_ops_address : ℕ

-- The states of the parts, and the flag of interrupts of the processor.
pub record Boot : Type 0 where
  pub interrupts_on : Bool
  pub screen : Screen
  pub console : Console
  pub gdt : Gdt
  pub idt : Idt
  pub irqs : Interrupts
  pub kernel : Kernel
  pub ramfs : Ramfs
  pub header_type : ℕ
  pub vendor_id : ℕ

-- `x86Cli` and `x86Sti` of core/hal.c.
abbrev pub x86_cli : Boot → Boot
x86_cli s = record s { interrupts_on = false }

abbrev pub x86_sti : Boot → Boot
x86_sti s = record s { interrupts_on = true }

-- The macro `INFO`, and `kDebug` with a text and no argument.
abbrev pub info : ℕ → Image → List ℕ → Boot → Option Boot
info fuel img text s = do
  screen ← k_debug img.font fuel (λ p. string text) (λ j. 0) (string info_format) (λ k. 0) s.screen
  some (record s { screen = screen })

abbrev pub debug : ℕ → Image → List ℕ → Boot → Option Boot
debug fuel img text s = do
  screen ← k_debug img.font fuel (λ p j. 0) (λ j. 0) (string text) (λ k. 0) s.screen
  some (record s { screen = screen })

-- The macro `WARN`: the text behind the format is an argument that no directive takes.
abbrev pub warn : ℕ → Boot → Option Boot
warn fuel s = do
  console ← early_log fuel (λ p j. 0) (λ j. 0) (string warn_format) (λ k. 0) s.console
  some (record s { console = console })

-- The test of the result of `gd_init`: `GSUCCESS` is 0.
abbrev pub warn_gd : ℕ → GdStatus → Boot → Option Boot
warn_gd fuel gsuccess s = warn fuel s
warn_gd fuel gerror s = some s

unfoldable pub try_gd : ℕ → MultibootInfo → ℕ → Boot → Option Boot
try_gd fuel mbd magic s =
    let (status, state) = gd_init s.screen s.kernel.machine mbd magic in
    warn_gd fuel status
      (record s { screen = state.0; kernel = record s.kernel { machine = state.1 } })

-- From `InitStdio` to `pit_init`.
unfoldable pub init_tables : Device → Image → Boot → Boot
init_tables device img s = record s {
  console = init_stdio s.console;
  gdt = gdt_init s.gdt img.gdt_ptr img.tss_ptr;
  idt = idt_init s.idt img.idt_ptr img.page_fault_stub img.irq_stub;
  irqs = pit_init device (record s.irqs { log = pic_init s.irqs.log }) img.timer_address;
}

-- `init_pages`, with the text that it prints behind its loops and before `EnablePaging`: the text
-- changes the screen alone.
abbrev pub with_pages : ℕ → Image → Boot → Option Boot
with_pages fuel img s = do
  t ← info fuel img paging_text s
  some (record t { kernel = record t.kernel { machine = init_pages t.kernel.machine } })

abbrev pub with_vga : Boot → Boot
with_vga s = record s {
  kernel = record s.kernel {
    machine = map_framebuffer s.kernel.machine s.console.vga (vga_width * vga_height * 2);
  };
}

abbrev pub with_heap : Boot → Boot
with_heap s =
    let heap = heap_init (heap_of s.kernel) in
    record s {
      kernel = record s.kernel {
        heap = heap;
        machine = record s.kernel.machine { pmm = heap.pmm };
      };
    }

abbrev pub with_keyboard : Device → Image → Boot → Boot
with_keyboard device img s = record s { irqs = kybrd_init device img.keyboard_address s.irqs }

abbrev pub with_mouse : ℕ → Device → Image → Boot → Option Boot
with_mouse fuel device img s = do
  log ← mouse_init fuel device s.irqs.log
  some (record s {
    irqs = irq_install_handler (record s.irqs { log = log }) (pos 12) img.mouse_address;
  })

abbrev pub with_pci : ℕ → Device → Boot → Option Boot
with_pci fuel device s = do
  out ←
      pcisub_init fuel device
        (record { header_type = s.header_type; vendor_id = s.vendor_id; log = s.irqs.log })
  some (record s {
    header_type = out.1.header_type;
    vendor_id = out.1.vendor_id;
    irqs = record s.irqs { log = out.1.log };
  })

-- The result of `__fork` is not looked at.
abbrev pub with_fork : ℕ → Boot → Option Boot
with_fork fuel s = do out ← fork fuel fuel s.kernel; some (record s { kernel = out.1 })

-- `__initramfs`, with the texts that it prints.
abbrev pub with_ramfs : ℕ → Image → Boot → Option Boot
with_ramfs fuel img s = do
  t ←
      info fuel img ramfs_ready
        (record s { ramfs = ramfs_init (record s.ramfs { heap = s.kernel.heap }) })
  u ← info fuel img mounting_text t
  info fuel img mounted_text
      (record u { ramfs = ramfs_mount u.ramfs root_path img.ramfs_ops_address })

-- `kernel_init` behind the test of `pmm_init`, up to `x86Sti`.
unfoldable pub init_devices : ℕ → Device → Image → MultibootInfo → ℕ → Boot → Option Boot
init_devices fuel device img mbd magic s = do
  s ← with_pages fuel img s
  s ← try_gd fuel mbd magic s
  s ← info fuel img mapping_vga s
  s ← info fuel img done_text (with_vga s)
  s ← info fuel img heap_text s
  s ← info fuel img done_text (with_heap s)
  s ← info fuel img keyboard_text s
  s ← info fuel img done_text (with_keyboard device img s)
  s ← info fuel img mouse_text s
  s ← with_mouse fuel device img s
  s ← info fuel img done_text s
  some (x86_sti s)

-- The rest of it.
unfoldable pub init_system : ℕ → Device → Image → Boot → Option Boot
init_system fuel device img s = do
  s ← info fuel img video_text s
  s ← info fuel img done_text s
  s ← info fuel img pci_text s
  s ← with_pci fuel device s
  s ← info fuel img done_text s
  s ← info fuel img fork_text s
  s ← with_fork fuel s
  s ← info fuel img done_text s
  s ← info fuel img ramfs_text s
  s ← with_ramfs fuel img s
  info fuel img done_text s

unfoldable pub kernel_init :
    ℕ → Device → Image → MultibootInfo → ℕ → Boot → Option (KernelStatus × Boot)
kernel_init fuel device img mbd magic s = do
  s ← try_gd fuel mbd magic (x86_cli s)
  let t = init_tables device img s
  out ← pmm_init fuel img.kernel_start img.kernel_end img.entry_at mbd magic t.kernel.machine.pmm
  let u = record t {
    kernel = record t.kernel { machine = record t.kernel.machine { pmm = out.1 } };
  }
  let failed = (do v ← debug fuel img pmm_error u; some (kernel_fault, v))
  let going_on = (do
    v ← init_devices fuel device img mbd magic u
    w ← init_system fuel device img v
    some (kernel_success, w))
  if not (is_zero out.0) then failed else going_on

-- The first rounds of the endless loop of `kmain`: `wake` is what the interrupts do that end a `hlt`.
unfoldable pub idle : ℕ → (Interrupts → Interrupts) → Boot → Boot
idle zero wake s = s
idle (suc rounds) wake s =
    idle rounds wake (record s {
      kernel = schedule s.kernel;
      irqs = wake (record s.irqs { log = halt s.irqs.log });
    })

-- `kmain` with that many rounds of its loop.
unfoldable pub kmain :
    ℕ → ℕ → (Interrupts → Interrupts) → Device → Image → MultibootInfo → ℕ → Boot → Option Boot
kmain fuel rounds wake device img mbd magic s = do
  out ← kernel_init fuel device img mbd magic s
  let failed = debug fuel img fault_text out.1
  let running = (do t ← info fuel img booted_text out.1; some (idle rounds wake t))
  elim out.0 [ kernel_success ↦ running | kernel_fault ↦ failed ]
