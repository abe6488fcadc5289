-- ===== src/Boot/Steps.antt =====
-- core/init.c: the single steps of `kernel_init` return, and what they leave.
use nika_kernel.Prelude.{
  ℕ, suc, ◌≤◌, ◌<◌, ◌≡◌, refl, ap, arith, ◌∙◌, bit_and, ◌<<<◌, ◌==◌, Bool-cases, inl, inr, Bool,
  true, some, List, length, Option,
}
use nika_kernel.Prelude.Fallible.{◌>>=◌}
use nika_kernel.Prelude.Int.{pos}
use nika_kernel.Multiboot.{MultibootInfo, bootloader_magic}
use nika_kernel.CString.Strings.{IsString}
use nika_kernel.Heap.{Heap, heap_init}
use nika_kernel.Descriptors.{Gdt, Idt}
use nika_kernel.Paging.{Machine, init_pages}
use nika_kernel.Process.{fork}
use nika_kernel.Ramfs.{Ramfs, root_path, fs_get_ops, ramfs_init, ramfs_mount, initramfs}
use nika_kernel.Ramfs.Mounts.{fs_get_ops-initramfs}
use nika_kernel.Io.{Log, Device}
use nika_kernel.Io.Irq.{set_handler, irq_install_handler}
use nika_kernel.Mouse.{mouse_init}
use nika_kernel.Mouse.Startup.{IsReady, mouse_init_ready}
use nika_kernel.Pci.{Pci}
use nika_kernel.Pci.Scan.{ReadsNoBridge, pcisub_init-ReadsNoBridge}
use nika_kernel.Gd.{get_framebuffer, gd_finish, gd_init}
use nika_kernel.Boot.{
  Image, Boot, info, try_gd, with_pages, with_mouse, with_pci, with_fork, with_ramfs,
}
use nika_kernel.Boot.Texts.{string, paging_text, ramfs_ready, mounting_text, mounted_text}
use nika_kernel.Boot.Printing.{Ends, bind-Ends, info-Ends}

-- The handlers of the lines, the descriptor tables, the heap, the page tables with the page
-- allocator, and the address of the text screen.
abbrev pub Settings : Type 0
Settings = (ℕ → ℕ) × Gdt × Idt × Heap × Machine × ℕ

abbrev pub settings : Boot → Settings
settings s = (s.irqs.irq_handlers, s.gdt, s.idt, s.kernel.heap, s.kernel.machine, s.console.vga)

-- The settings with a handler for a line.
abbrev pub with_line : ℕ → ℕ → Settings → Settings
with_line n handler f = (set_handler f.0 n handler, f.1, f.2, f.3, f.4, f.5)

-- The settings with other page tables, and with the heap that `heap_init` sets up.
abbrev pub with_machine : (Machine → Machine) → Settings → Settings
with_machine change f = (f.0, f.1, f.2, f.3, change f.4, f.5)

abbrev pub with_new_heap : Settings → Settings
with_new_heap f =
    let heap = heap_init (record f.3 { pmm = f.4.pmm }) in
    (f.0, f.1, f.2, heap, record f.4 { pmm = heap.pmm }, f.5)

-- The flag of interrupts, paging on or off, no process, nothing mounted, and the settings.
abbrev pub IsQuiet : Bool → Bool → Settings → Boot → Type 0
IsQuiet b p f s =
    (s.interrupts_on ≡ b)
    × (s.kernel.machine.paging ≡ p)
    × (s.kernel.current_process ≡ 0)
    × (s.kernel.process_list ≡ 0)
    × (s.ramfs.mount_count ≡ 0)
    × (settings s ≡ f)

-- A text of the boot sequence, as a string.
abbrev pub IsText : List ℕ → Type 0
IsText text = IsString (string text) 0 text × (length text < 40)

-- Without a framebuffer `gd_init` fails and changes nothing, and no warning is printed.
pub try_gd_refused :
    (fuel : ℕ) (mbd : MultibootInfo) (magic : ℕ) (s : Boot)
    → bit_and mbd.flags (1 <<< 12) ≡ 0
    → try_gd fuel mbd magic s ≡ some s
unfolding try_gd gd_init get_framebuffer gd_finish
try_gd_refused fuel mbd magic s no_frame = elim (Bool-cases (magic == bootloader_magic)) [
  | inl right ↦ rw (right, no_frame)
  | inr wrong ↦ rw wrong
]

module _ (fuel : ℕ) (enough : 40 ≤ fuel) (b p : Bool) (f : Settings) where
  -- A text on the screen, and what comes behind it.
  pub say_then :
      (Q : Boot → Type 0) (img : Image) (text : List ℕ) (s : Boot) (rest : Boot → Option Boot)
      → IsText text
      → IsQuiet b p f s
      → ((t : Boot) → IsQuiet b p f t → Ends Q (rest t))
      → Ends Q (info fuel img text s >>= rest)
  say_then Q img text s rest h q onward =
      bind-Ends (IsQuiet b p f) Q (info fuel img text s) rest
        (info-Ends (IsQuiet b p f) fuel img text s enough h.0 (omega (arith, h.1)) (λ screen. q))
        onward

-- Interrupts and paging are on, there is no process, and the file system stands as given.
abbrev IsRunning : Settings → Ramfs → Boot → Type 0
IsRunning f r s =
    (s.interrupts_on ≡ true)
    × (s.kernel.machine.paging ≡ true)
    × (s.kernel.current_process ≡ 0)
    × (s.kernel.process_list ≡ 0)
    × (settings s ≡ f)
    × (s.ramfs ≡ r)

-- Behind the last step: the file system is there, and "r:/" leads to its operations.
abbrev pub IsMounted : Image → Settings → Boot → Type 0
IsMounted img f s =
    (s.interrupts_on ≡ true)
    × (s.kernel.machine.paging ≡ true)
    × (s.kernel.current_process ≡ 0)
    × (s.kernel.process_list ≡ 0)
    × (settings s ≡ f)
    × (s.ramfs.fs_true ≡ true)
    × (fs_get_ops 4 s.ramfs root_path ≡ some img.ramfs_ops_address)

module _ (fuel : ℕ) (enough : 40 ≤ fuel) (device : Device) (img : Image) where
  pub with_pages-Ends :
      (b p : Bool) (f : Settings) (s : Boot)
      → IsQuiet b p f s
      → Ends (IsQuiet b true (with_machine init_pages f)) (with_pages fuel img s)
  unfolding init_pages
  with_pages-Ends b p f s q =
      say_then fuel enough b p f (IsQuiet b true (with_machine init_pages f)) img paging_text s _
        (omega arith) q
        (λ a qa. (
          record a { kernel = record a.kernel { machine = init_pages a.kernel.machine } },
          refl,
          (qa.0, refl, qa.2, qa.3, qa.4, ap (with_machine init_pages) qa.5),
        ))

  pub with_mouse-Ends :
      (b p : Bool) (f : Settings) (s : Boot)
      → IsReady device
      → IsQuiet b p f s
      → Ends (IsQuiet b p (with_line 12 img.mouse_address f)) (with_mouse (suc fuel) device img s)
  unfolding irq_install_handler
  with_mouse-Ends b p f s ready q =
      let (l, done) : (l : Log) × (mouse_init (suc fuel) device s.irqs.log ≡ some l) =
        (_, mouse_init_ready fuel device s.irqs.log ready) in
      let irqs = irq_install_handler (record s.irqs { log = l }) (pos 12) img.mouse_address in
      (
        record s { irqs = irqs },
        rw done,
        (q.0, q.1, q.2, q.3, q.4, ap (with_line 12 img.mouse_address) q.5),
      )

  pub with_pci-Ends :
      (b p : Bool) (f : Settings) (s : Boot)
      → ReadsNoBridge device
      → IsQuiet b p f s
      → Ends (IsQuiet b p f) (with_pci (suc fuel) device s)
  with_pci-Ends b p f s plain q =
      let pci : Pci = record {
        header_type = s.header_type;
        vendor_id = s.vendor_id;
        log = s.irqs.log;
      } in
      let (t, scanned) = pcisub_init-ReadsNoBridge fuel device pci plain in
      let found = record s {
        header_type = t.header_type;
        vendor_id = t.vendor_id;
        irqs = record s.irqs { log = t.log };
      } in
      (found, rw scanned, q)

  pub with_fork-Ends :
      (b p : Bool) (f : Settings) (s : Boot)
      → IsQuiet b p f s
      → Ends (IsQuiet b p f) (with_fork fuel s)
  unfolding fork
  with_fork-Ends b p f s q = (s, rw q.2, q)

  pub with_ramfs-Ends :
      (f : Settings) (s : Boot)
      → IsQuiet true true f s
      → Ends (IsMounted img f) (with_ramfs fuel img s)
  unfolding initramfs
  with_ramfs-Ends f s q =
      let start = record s.ramfs { heap = s.kernel.heap } in
      let mounted = fs_get_ops-initramfs 4 start img.ramfs_ops_address q.4 (omega arith) in
      let on = IsRunning f (ramfs_init start) in
      bind-Ends on (IsMounted img f) _ _
        (info-Ends on fuel img ramfs_ready (record s { ramfs = ramfs_init start }) enough
          (omega arith) (omega arith) (λ screen. (q.0, q.1, q.2, q.3, q.5, refl)))
        (λ a qa.
          bind-Ends on (IsMounted img f) _ _
            (info-Ends on fuel img mounting_text a enough (omega arith) (omega arith)
              (λ screen. qa))
            (λ b qb.
              info-Ends (IsMounted img f) fuel img mounted_text _ enough (omega arith) (omega arith)
                (λ screen. (
                  qb.0,
                  qb.1,
                  qb.2,
                  qb.3,
                  qb.4,
                  ap (λ (r : Ramfs). (ramfs_mount r root_path img.ramfs_ops_address).fs_true) qb.5
                      ∙ mounted.0,
                  ap
                        (λ (r : Ramfs).
                          fs_get_ops 4 (ramfs_mount r root_path img.ramfs_ops_address) root_path)
                        qb.5
                      ∙ mounted.3,
                ))))
