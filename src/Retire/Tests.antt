-- ===== src/Retire/Tests.antt =====
-- Slot 0 ends; slot 3 is in an open receive, and slot 4 waits for the task with id 0 to send.
use rvos.Common.{◌≡◌, refl, true, false, some, update, arith}
use rvos.Kernel.{Kernel, Task, boot_kernel, zero_task, running, runnable, blocked}
use rvos.Retire.{task_retire}
use rvos.Retire.Wakes.{waits_for, task_retire-waits_for, task_retire-zero}

abbrev receiver : Task
receiver = record zero_task { id = 3; pt = 8192; state = blocked; waiting_recv = true }

abbrev kernel : Kernel
kernel = record boot_kernel {
  current = some 0;
  tasks =
      update
        (update (update (λ i. zero_task) 0 (record zero_task { pt = 4096; state = running })) 3
          receiver)
        4 (record receiver { id = 4; recv_closed = true });
}

task_retire-waits_for_example : waits_for 0 ((task_retire kernel 0).tasks 4) ≡ false
task_retire-waits_for_example = task_retire-waits_for kernel 0 4 (omega arith) (omega arith)

task_retire-zero_example :
    (((task_retire kernel 0).tasks 3).state ≡ runnable)
    × (((task_retire kernel 0).tasks 3).ctx.x 10 ≡ 0)
task_retire-zero_example =
    task_retire-zero kernel 0 3 (omega arith) (omega arith) refl refl refl refl
