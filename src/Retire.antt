-- ===== src/Retire.antt =====
-- task_retire of src/task.c: the end of a task. Its senders fail, its own place in a queue goes,
-- whoever waits for it is woken, and its memory and its view of the names go back.
pub mod Wakes
pub mod Tests
use rvos.Common.{
  ℕ, zero, suc, ◌+◌, ◌%◌, ◌^◌, Bool, true, false, ◌&&◌, ◌||◌, not, Option, none, some, ◌==◌, ◌!=◌,
  if◌then◌else◌, update,
}
use rvos.Common.Words.{minus_one}
use rvos.Vm.{vm_free_task}
use rvos.Kernel.{Kernel, Task, Tasks, ntask, set_reg, is_unused, is_blocked, runnable, unused}
use rvos.Ipc.{unlink}
use rvos.Namespaces.{ns_gc}

-- A sender's send() fails rather than hangs.
abbrev pub released : Task → Task
released s = record (set_reg s 10 minus_one) { state = runnable; send_next = none }

pub drain : ℕ → Tasks → Option ℕ → Tasks
drain zero tasks s = tasks
drain (suc fuel) tasks none = tasks
drain (suc fuel) tasks (some s) =
    drain fuel (update tasks s (released (tasks s))) (tasks s).send_next

-- `t` out of the queue of slot `i`, where it stands there.
pub leave_queue : ℕ → Tasks → ℕ → ℕ → Option ℕ → Option ℕ → Tasks
leave_queue zero tasks i t prev s = tasks
leave_queue (suc fuel) tasks i t prev none = tasks
leave_queue (suc fuel) tasks i t prev (some s) =
    let rest = leave_queue fuel tasks i t (some s) (tasks s).send_next in
    if s == t then unlink tasks i prev s else rest

pub leave_queues : ℕ → ℕ → Tasks → ℕ → Tasks
leave_queues zero i tasks t = tasks
leave_queues (suc left) i tasks t =
    leave_queues left (i + 1) (leave_queue (suc ntask) tasks i t none (tasks i).wait_sender) t

abbrev pub wake_waiter : ℕ → Task → Task
wake_waiter id u =
    if is_blocked u.state && (u.wait_for == id)
    then record (set_reg u 10 0) { wait_for = 0; state = runnable }
    else u

abbrev pub wake_receiver : ℕ → Task → Task
wake_receiver id u =
    if is_blocked u.state && u.waiting_recv && u.recv_closed && (u.recv_from == id)
    then record (set_reg u 10 minus_one) {
      waiting_recv = false;
      recv_closed = false;
      state = runnable;
    }
    else u

pub wake_loop : ℕ → ℕ → Tasks → ℕ → Tasks
wake_loop zero i tasks id = tasks
wake_loop (suc left) i tasks id =
    wake_loop left (i + 1) (update tasks i (wake_receiver id (wake_waiter id (tasks i)))) id

-- Somebody else stands in the address space of `t`.
pub shared : ℕ → ℕ → Tasks → ℕ → Bool
shared zero i tasks t = false
shared (suc left) i tasks t =
    ((i != t)
      && ((tasks i).pt == (tasks t).pt)
      && (not (is_unused (tasks i).state) || ((tasks i).pt != 0)))
    || shared left (i + 1) tasks t

-- The tasks once nobody waits for `t` any more.
pub settle : Tasks → ℕ → Tasks
settle tasks t =
    let drained = drain (suc ntask) tasks (tasks t).wait_sender in
    let alone =
      update drained t (record (drained t) { wait_sender = none; waiting_recv = false }) in
    let gone = leave_queues ntask 0 alone t in wake_loop ntask 0 gone (gone t).id

abbrev pub retired : Task → Task
retired u = record u { pt = 0; state = unused; gen = (u.gen + 1) % 2 ^ 32 }

pub task_retire : Kernel → ℕ → Kernel
task_retire k t =
    let tasks = settle k.tasks t in
    let machine =
      if shared ntask 0 tasks t then k.machine else vm_free_task k.machine (tasks t).pt in
    ns_gc (record k { machine = machine; tasks = update tasks t (retired (tasks t)) })
