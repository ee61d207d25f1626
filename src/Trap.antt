-- ===== src/Trap.antt =====
-- src/trap.c: alarms, interrupts and who drives them, and the handler of a trap. The clock is a
-- parameter (`now`), and so is the interrupt that the controller hands out (`irq`, 0 for none).
pub mod Alarms
use rvos.Common.{
  ℕ, zero, suc, ◌+◌, ◌-◌, ◌*◌, ◌/◌, ◌%◌, ◌^◌, Bool, true, false, ◌&&◌, ◌||◌, not, Option, none,
  some, ltb, leb, ◌==◌, ◌!=◌, if◌then◌else◌, update,
}
use rvos.Common.Words.{slt, add64}
use rvos.Kernel.{Kernel, Task, Tasks, ntask, set_reg, is_unused, is_blocked, runnable}
use rvos.Task.{schedule}
use rvos.Ipc.{put, set_a0, irq_sender, timer_sender}
use rvos.Retire.{task_retire}

-- NIRQ
abbrev pub nirq : ℕ
nirq = 32

-- Waking a receiver looks like delivering a message to it.
abbrev pub wake_with : ℕ → Task → Task
wake_with sender t = record (set_a0 t sender) { waiting_recv = false; state = runnable }

pub alarm_one : ℕ → Task → Task
alarm_one now t =
    let due = record t { alarm_at = 0 } in
    if is_unused t.state || (t.alarm_at == 0) || ltb now t.alarm_at
    then t
    else if is_blocked t.state && t.waiting_recv
    then wake_with timer_sender due
    else record due { timer_pending = true }

pub alarms_loop : ℕ → ℕ → ℕ → Tasks → Tasks
alarms_loop zero i now tasks = tasks
alarms_loop (suc left) i now tasks =
    alarms_loop left (i + 1) now (update tasks i (alarm_one now (tasks i)))

pub alarms_check : ℕ → Kernel → Kernel
alarms_check now k = record k { tasks = alarms_loop ntask 0 now k.tasks }

-- `irq <= 0 || irq >= NIRQ` of an int.
abbrev pub bad_irq : ℕ → Bool
bad_irq irq = not (slt 0 irq) || not (slt irq nirq)

pub irq_register : Kernel → ℕ → ℕ → Bool × Kernel
irq_register k irq t =
    if bad_irq irq
    then (false, k)
    else (true, record k { irq_owner = update k.irq_owner irq (some t) })

-- Two pointers to tasks.
abbrev pub same_task : Option ℕ → Option ℕ → Bool
same_task none none = true
same_task none (some c) = false
same_task (some t) none = false
same_task (some t) (some c) = t == c

-- Where it succeeds, the controller is told that the interrupt is done.
pub irq_ack : Kernel → ℕ → Bool
irq_ack k irq = if bad_irq irq then false else same_task (k.irq_owner irq) k.current

abbrev pub interrupted : Task → Task
interrupted t =
    if is_blocked t.state && t.waiting_recv
    then wake_with irq_sender t
    else record t { irq_pending = true }

-- The kernel, and whether the controller is told at once that the interrupt is done.
pub device_interrupt : Kernel → ℕ → Bool × Kernel
device_interrupt k irq =
    if irq == 0 then (false, k) else elim (if bad_irq irq then none else k.irq_owner irq) [
      | none ↦ (true, k)
      | some t ↦
          if is_unused (k.tasks t).state
          then (true, k)
          else (false, put k t (interrupted (k.tasks t)))
    ]

-- CAUSE_INT, the cause of the timer and of a device; EXC_ECALL_S and EXC_ECALL_U.
abbrev pub cause_int : ℕ
cause_int = 2 ^ 63

abbrev pub is_ecall : ℕ → Bool
is_ecall scause = (scause == 9) || (scause == 8)

abbrev pub step_over : Task → Task
step_over t = record t { ctx = record (t.ctx) { epc = add64 t.ctx.epc 4 } }

abbrev pub fault : Kernel → Option Kernel
fault k = elim k.current [ none ↦ schedule k | some c ↦ schedule (task_retire k c) ]

-- `dispatch` is syscall_dispatch, for the current task; a system call comes from a task.
pub strap_handler : (Kernel → ℕ → ℕ → Option Kernel) → Kernel → ℕ → ℕ → ℕ → Option Kernel
strap_handler dispatch k scause now irq =
    let cause = scause % 256 in
    if leb cause_int (scause % 2 ^ 64)
    then (if cause == 5
        then schedule (alarms_check now k)
        else some (if cause == 9 then (device_interrupt k irq).1 else k))
    else if is_ecall scause
    then elim k.current [
      | none ↦ none
      | some c ↦ dispatch (put k c (step_over (k.tasks c))) c ((k.tasks c).ctx.x 17)
    ]
    else fault k
