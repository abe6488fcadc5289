-- ===== src/Mouse/Startup.antt =====
-- `mouse_init` of drivers/mouse.c, and which ports it writes to.
use nika_kernel.Prelude.{ℕ, suc, ◌<◌, ◌≡◌, arith, some, ◌∷◌, u8, u16, bit_and}
use nika_kernel.Io.{Log, Device, wrote, was_read}
use nika_kernel.Mouse.{
  mouse_status_port, mouse_cmd_enable, mouse_cmd_write, mouse_reset, mouse_enable_data,
  wait_for_input, send_mouse_command, mouse_init,
}

-- The controller is ready for input whenever its status is read.
abbrev pub IsReady : Device → Type 0
IsReady device = (log : Log) → bit_and (u8 (device log mouse_status_port)) 2 ≡ 0

wait_for_input_ready :
    (fuel : ℕ) (device : Device) (log : Log)
    → IsReady device
    → wait_for_input (suc fuel) device log ≡ some (was_read mouse_status_port ∷ log)
unfolding wait_for_input
wait_for_input_ready fuel device log ready = rw (ready log)

-- What a command leaves in the log.
abbrev pub sent : ℕ → Log → Log
sent cmd log =
    wrote cmd 0x60
    ∷ was_read mouse_status_port
    ∷ wrote mouse_cmd_write mouse_status_port
    ∷ was_read mouse_status_port
    ∷ log

send_mouse_command_ready :
    (fuel : ℕ) (device : Device) (log : Log) (cmd : ℕ)
    → IsReady device
    → cmd < 256
    → send_mouse_command (suc fuel) device log cmd ≡ some (sent cmd log)
unfolding send_mouse_command
send_mouse_command_ready fuel device log cmd ready lt =
    let index : u16 cmd ≡ cmd = omega arith in
    rw (
      wait_for_input_ready fuel device log ready,
      wait_for_input_ready fuel device
          (wrote mouse_cmd_write mouse_status_port ∷ was_read mouse_status_port ∷ log) ready,
      index,
    )

-- With a controller that is always ready, `mouse_init` sends its three commands the wrong way round:
-- each is a write of 0x64 to port 0xd4 and of 0x60 to the port whose number is the command, so that
-- the ports 0x60 and 0x64 of the controller are read and never written.
pub mouse_init_ready :
    (fuel : ℕ) (device : Device) (log : Log)
    → IsReady device
    → mouse_init (suc fuel) device log
      ≡ some (sent mouse_enable_data (sent mouse_reset (sent mouse_cmd_enable log)))
unfolding mouse_init
mouse_init_ready fuel device log ready =
    rw
      (
        send_mouse_command_ready fuel device log mouse_cmd_enable ready (omega arith),
        send_mouse_command_ready fuel device (sent mouse_cmd_enable log) mouse_reset ready
            (omega arith),
      )
      (send_mouse_command_ready fuel device (sent mouse_reset (sent mouse_cmd_enable log))
        mouse_enable_data ready (omega arith))
