-- ===== src/Boot/Startup.antt =====
-- core/init.c: `kernel_init` from the first statement on.
use nika_kernel.Prelude.{ℕ, suc, ◌≤◌, ◌≡◌, refl, ap, arith, ◌∙◌, Bool, true, false, bit_and, ◌<<<◌}
use nika_kernel.Multiboot.{MultibootInfo}
use nika_kernel.Pmm.{Pmm}
use nika_kernel.Paging.{init_pages, map_framebuffer}
use nika_kernel.Paging.Flag.{map_framebuffer-Kept}
use nika_kernel.Io.{Device}
use nika_kernel.Io.Irq.{irq_install_handler}
use nika_kernel.Keyboard.{kybrd_init}
use nika_kernel.Mouse.Startup.{IsReady}
use nika_kernel.Pci.Scan.{ReadsNoBridge}
use nika_kernel.Boot.{
  Image, Boot, x86_cli, init_tables, with_vga, with_heap, with_keyboard, init_devices, init_system,
}
use nika_kernel.Boot.Texts.{
  mapping_vga, done_text, heap_text, keyboard_text, mouse_text, video_text, pci_text, fork_text,
  ramfs_text,
}
use nika_kernel.Boot.Printing.{Ends, bind-Ends, info-Ends}
use nika_kernel.Boot.Steps.{
  Settings, settings, with_line, with_machine, with_new_heap, IsQuiet, IsMounted, try_gd_refused,
  say_then, with_pages-Ends, with_mouse-Ends, with_pci-Ends, with_fork-Ends, with_ramfs-Ends,
}

-- The mapping of the text screen.
abbrev pub map_vga : Settings → Settings
map_vga f = with_machine (λ m. map_framebuffer m f.5 4000) f

-- What the steps from `init_pages` to `mouse_init` make of the settings.
abbrev pub set_up : Image → Settings → Settings
set_up img f =
    with_line 12 img.mouse_address
      (with_line 1 img.keyboard_address (with_new_heap (map_vga (with_machine init_pages f))))

module _ (fuel : ℕ) (enough : 40 ≤ fuel) (device : Device) (img : Image) where
  pub init_devices-Ends :
      (mbd : MultibootInfo) (magic : ℕ) (p : Bool) (f : Settings) (s : Boot)
      → bit_and mbd.flags (1 <<< 12) ≡ 0
      → IsReady device
      → IsQuiet false p f s
      → Ends (IsQuiet true true (set_up img f)) (init_devices (suc fuel) device img mbd magic s)
  unfolding init_devices kybrd_init irq_install_handler
  init_devices-Ends mbd magic p f s no_frame ready q =
      let more : 40 ≤ suc fuel = omega arith in
      let g = with_machine init_pages f in
      let h = map_vga g in
      let i = with_new_heap h in
      let j = with_line 1 img.keyboard_address i in
      let on = IsQuiet true true (set_up img f) in
      let next = λ (k : Settings). say_then (suc fuel) more false true k on img in
      bind-Ends (IsQuiet false true g) on _ _
        (with_pages-Ends (suc fuel) more device img false p f s q)
        (λ z qz.
          bind-Ends (IsQuiet false true g) on _ _
            (z, try_gd_refused (suc fuel) mbd magic z no_frame, qz)
            (λ a qa. next g mapping_vga a _ (omega arith) qa (λ b qb.
              next h done_text (with_vga b) _ (omega arith)
                (
                  qb.0,
                  (map_framebuffer-Kept b.kernel.machine _ _).0 ∙ qb.1,
                  qb.2,
                  qb.3,
                  qb.4,
                  ap map_vga qb.5,
                )
                (λ c qc. next h heap_text c _ (omega arith) qc (λ d qd.
                  next i done_text (with_heap d) _ (omega arith)
                    (qd.0, qd.1, qd.2, qd.3, qd.4, ap with_new_heap qd.5)
                    (λ e qe. next i keyboard_text e _ (omega arith) qe (λ k qk.
                      next j done_text (with_keyboard device img k) _ (omega arith)
                        (qk.0, qk.1, qk.2, qk.3, qk.4, ap (with_line 1 img.keyboard_address) qk.5)
                        (λ l ql. next j mouse_text l _ (omega arith) ql (λ m qm.
                          bind-Ends (IsQuiet false true (set_up img f)) on _ _
                            (with_mouse-Ends fuel enough device img false true j m ready qm)
                            (λ n qn. next (set_up img f) done_text n _ (omega arith) qn (λ o qo. (
                              record o { interrupts_on = true },
                              refl,
                              (refl, qo.1, qo.2, qo.3, qo.4, qo.5),
                            ))))))))))))

pub init_system-Ends :
    (fuel : ℕ) (device : Device) (img : Image) (f : Settings) (s : Boot)
    → 40 ≤ fuel
    → ReadsNoBridge device
    → IsQuiet true true f s
    → Ends (IsMounted img f) (init_system (suc fuel) device img s)
unfolding init_system
init_system-Ends fuel device img f s enough plain q =
    let on = IsQuiet true true f in
    let end = IsMounted img f in
    let more : 40 ≤ suc fuel = omega arith in
    let next = say_then (suc fuel) more true true f end img in
    next video_text s _ (omega arith) q (λ a qa. next done_text a _ (omega arith) qa (λ b qb.
      next pci_text b _ (omega arith) qb (λ c qc.
        bind-Ends on end _ _ (with_pci-Ends fuel enough device img true true f c plain qc) (λ d qd.
          next done_text d _ (omega arith) qd (λ e qe. next fork_text e _ (omega arith) qe (λ g qg.
            bind-Ends on end _ _ (with_fork-Ends (suc fuel) more device img true true f g qg)
              (λ h qh. next done_text h _ (omega arith) qh (λ i qi.
                next ramfs_text i _ (omega arith) qi (λ j qj.
                  bind-Ends end end _ _ (with_ramfs-Ends (suc fuel) more device img f j qj) (λ k qk.
                    info-Ends end (suc fuel) img done_text k more (omega arith) (omega arith)
                      (λ screen. qk)))))))))))

-- The settings behind `pmm_init`, which gives the page allocator.
abbrev pub first_settings : Device → Image → Boot → Pmm → Settings
first_settings device img s pmm =
    let t = init_tables device img (x86_cli s) in
    settings
      (record t { kernel = record t.kernel { machine = record t.kernel.machine { pmm = pmm } } })
