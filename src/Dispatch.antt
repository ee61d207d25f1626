-- ===== src/Dispatch.antt =====
-- syscall_dispatch of src/task.c: the call for each number of src/syscall.h.
use rvos.Common.{ℕ, List, Option, some, ◌==◌, if◌then◌else◌}
use rvos.Kernel.{Kernel}
use rvos.Task.{schedule}
use rvos.Ipc.{ipc_syscall}
use rvos.Heap.{sbrk}
use rvos.Syscalls.{
  sys_mount, sys_bind, sys_unmount, sys_nsclone, sys_wait, sys_alive, sys_alarm, sys_dma_alloc,
  sys_irq_reg, sys_irq_ack, sys_exit, sys_thread, sys_self, sys_kill, sys_newtask, sys_vmload,
  sys_start,
}
use rvos.Reports.{sys_resolve, sys_mounts, sys_meminfo, sys_pgdump, sys_taskinfo}

-- What a call finds around it: the page table of the kernel, where its locals stand, what the stack
-- has behind a path, the end of the image, and the time.
pub record Surroundings : Type 0 where
  pub kpt : ℕ
  pub local : ℕ
  pub stale : List ℕ
  pub image_end : ℕ
  pub now : ℕ

-- The calls that only report. `devinfo` is SYS_DEVINFO, whose text the device tree and PCI give.
pub report_call : Surroundings → (Kernel → ℕ → Option Kernel) → Kernel → ℕ → ℕ → Option Kernel
report_call around devinfo k cur num =
    if num == 4
    then sys_pgdump around.kpt around.local k cur
    else if num == 5
    then sys_resolve around.kpt around.local around.stale k cur
    else if num == 6
    then sys_taskinfo around.kpt around.local k cur
    else if num == 7
    then sys_mounts around.kpt around.local k cur
    else if num == 8
    then sys_meminfo around.kpt around.local k cur
    else if num == 27
    then devinfo k cur
    else if num == 28
    then sys_self k cur
    else (ipc_syscall k cur num).1

-- The calls that make, wait for and end tasks.
pub task_call : Surroundings → (Kernel → ℕ → ℕ → Option Kernel) → Kernel → ℕ → ℕ → Option Kernel
task_call around others k cur num =
    if num == 11
    then sys_newtask around.image_end k cur
    else if num == 12
    then sys_vmload around.kpt around.local k cur
    else if num == 13
    then sys_start around.kpt around.local k cur
    else if num == 14
    then sys_exit k cur
    else if num == 19
    then sys_alive k cur
    else if num == 23
    then sys_wait k cur
    else if num == 26
    then sys_kill k cur
    else if num == 29
    then sys_thread k cur
    else others k cur num

-- SYS_PUTC writes to the console and changes nothing here.
pub syscall_dispatch : Surroundings → (Kernel → ℕ → Option Kernel) → Kernel → ℕ → ℕ → Option Kernel
syscall_dispatch around devinfo k cur num =
    if num == 0
    then schedule k
    else if num == 3
    then some k
    else if num == 9
    then sys_bind k cur
    else if num == 10
    then sys_nsclone k cur
    else if num == 15
    then sys_irq_reg k cur
    else if num == 16
    then sys_irq_ack k cur
    else if num == 17
    then sys_dma_alloc around.kpt around.local k cur
    else if num == 18
    then sys_alarm around.now k cur
    else if num == 20
    then sys_mount k cur
    else if num == 21
    then sys_unmount k cur
    else if num == 25
    then sbrk k cur
    else task_call around (report_call around devinfo) k cur num
