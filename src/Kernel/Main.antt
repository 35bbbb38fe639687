-- ===== src/Kernel/Main.antt =====
-- `kernel_main` of kernel.c, up to the endless loop of `panic`. The two buffers on the stack hold
-- anything at first.
use kernel_play.Prelude.{ℕ, List}
use kernel_play.Prelude.Run.{Run, ok, ◌>>=◌}
use kernel_play.Prelude.Codes.{literal}
use kernel_play.Memory.{Memory}
use kernel_play.Disk.{Drive}
use kernel_play.Terminal.{Terminal}
use kernel_play.Kernel.{Image, Machine, kernel_start, panic}
use kernel_play.Kernel.Demos.{
  Desk, demo_pparser, demo_disk_streamer, demo_fopen, demo_fread, demo_fseek,
}

unfoldable pub kernel_main : Drive → ℕ → Image → List ℕ → List ℕ → Terminal → Memory → Run Machine
kernel_main drive fuel image stack stack' t m = do
  machine ← kernel_start drive fuel image t m
  let d0 : Desk = record { terminal = machine.terminal; files = machine.files }
  d1 ← demo_pparser drive fuel machine.heap d0
  d2 ← demo_disk_streamer drive fuel machine.heap d1
  d3 ← demo_fopen drive fuel machine.heap d2
  d4 ← demo_fread drive fuel machine.heap stack d3
  d5 ← demo_fseek drive fuel machine.heap stack' d4
  final ← panic d5.terminal (literal "Testing panic")
  ok (record machine { terminal = final; files = d5.files })
