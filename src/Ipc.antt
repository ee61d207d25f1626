-- ===== src/Ipc.antt =====
-- src/ipc.c: rendezvous messages. `none` is a call that parks the machine in `schedule`.
pub mod Queue
pub mod Dequeue
pub mod Outcomes
pub mod LostSender
pub mod Tests
use rvos.Common.{
  ℕ, zero, suc, ◌+◌, ◌%◌, ◌^◌, ◌-◌, Bool, true, false, ◌&&◌, ◌||◌, not, Option, none, some, ◌==◌,
  ◌!=◌, if◌then◌else◌, update,
}
use rvos.Common.Words.{int_of, sext32, slt, minus_one}
use rvos.Kernel.{Kernel, Task, Tasks, ntask, set_reg, is_unused, is_blocked, runnable, blocked}
use rvos.Task.{task_by_id, schedule}
use rvos.Vm.{vm_copy_across}
use rvos.Memory.{Memory}

-- A0(t), A1(t), A2(t)
abbrev pub a0 : Task → ℕ
a0 t = t.ctx.x 10

abbrev pub a1 : Task → ℕ
a1 t = t.ctx.x 11

abbrev pub a2 : Task → ℕ
a2 t = t.ctx.x 12

abbrev pub set_a0 : Task → ℕ → Task
set_a0 t v = set_reg t 10 v

-- (uint64)IRQ_SENDER and (uint64)TIMER_SENDER, of src/syscall.h: -2 and -3.
abbrev pub irq_sender : ℕ
irq_sender = 2 ^ 64 - 2

abbrev pub timer_sender : ℕ
timer_sender = 2 ^ 64 - 3

abbrev pub put : Kernel → ℕ → Task → Kernel
put k i t = record k { tasks = update k.tasks i t }

-- The walk to the last sender of a queue. A queue holds no task twice, so it has at most NTASK.
pub link_last : ℕ → Tasks → ℕ → ℕ → Tasks
link_last zero tasks p snd = tasks
link_last (suc fuel) tasks p snd = elim (tasks p).send_next [
  | none ↦ update tasks p (record (tasks p) { send_next = some snd })
  | some next ↦ link_last fuel tasks next snd
]

pub enqueue_sender : Tasks → ℕ → ℕ → Tasks
enqueue_sender tasks recv snd =
    let tasks' = update tasks snd (record (tasks snd) { send_next = none }) in
    elim (tasks' recv).wait_sender [
      | none ↦ update tasks' recv (record (tasks' recv) { wait_sender = some snd })
      | some first ↦ link_last ntask tasks' first snd
    ]

-- `prev->send_next = next`, or the head of the queue where there is no `prev`.
abbrev pub relink : Tasks → ℕ → Option ℕ → Option ℕ → Tasks
relink tasks recv none next = update tasks recv (record (tasks recv) { wait_sender = next })
relink tasks recv (some prev) next = update tasks prev (record (tasks prev) { send_next = next })

abbrev pub unlink : Tasks → ℕ → Option ℕ → ℕ → Tasks
unlink tasks recv prev s =
    let tasks' = relink tasks recv prev (tasks s).send_next in
    update tasks' s (record (tasks' s) { send_next = none })

abbrev pub accepts : Bool → ℕ → Task → Bool
accepts closed want s = not closed || (s.id == want)

pub dequeue_loop : ℕ → Tasks → ℕ → Bool → ℕ → Option ℕ → Option ℕ → Option ℕ × Tasks
dequeue_loop zero tasks recv closed want prev s = (none, tasks)
dequeue_loop (suc fuel) tasks recv closed want prev none = (none, tasks)
dequeue_loop (suc fuel) tasks recv closed want prev (some s) =
    let rest = dequeue_loop fuel tasks recv closed want (some s) (tasks s).send_next in
    if accepts closed want (tasks s) then (some s, unlink tasks recv prev s) else rest

pub dequeue_sender : Tasks → ℕ → Bool → ℕ → Option ℕ × Tasks
dequeue_sender tasks recv closed want =
    dequeue_loop (suc ntask) tasks recv closed want none (tasks recv).wait_sender

pub wants : Task → Task → Bool
wants dst src =
    if not (is_blocked dst.state) || not dst.waiting_recv
    then false
    else not dst.recv_closed || (dst.recv_from == src.id)

-- `none` is the result -1. A copy that fails may have moved a part of the message.
pub deliver : Kernel → Task → ℕ → ℕ → Task → ℕ → ℕ → Option ℕ × Kernel
deliver k snd sva slen rcv rva rlen =
    let n = if slt slen rlen then slen else rlen in
    let (ok, m) = vm_copy_across k.machine.mem rcv.pt rva snd.pt sva n in
    let k' = record k { machine = record (k.machine) { mem = m } } in
    if slt 0 n then (if ok then (some n, k') else (none, k')) else (some 0, k)

abbrev pub fail : Kernel → ℕ → Option Kernel
fail k cur = some (put k cur (set_a0 (k.tasks cur) minus_one))

-- The receiver is parked: copy, and free both.
pub send_now : Kernel → ℕ → ℕ → Option Kernel
send_now k cur dst =
    let me = k.tasks cur in
    let d = k.tasks dst in
    let (n, k') = deliver k me (a1 me) (int_of (a2 me)) d d.recv_va d.recv_len in
    elim n [
      | none ↦ fail k' cur
      | some _ ↦
          let k'' = put k' dst (record (set_a0 d (sext32 me.id)) {
            waiting_recv = false;
            recv_closed = false;
            state = runnable;
          }) in
          some (put k'' cur (set_a0 me 0))
    ]

-- Nobody is waiting: the sender stands in the queue of the receiver.
pub park_sender : Kernel → ℕ → ℕ → Kernel
park_sender k cur dst =
    let me = k.tasks cur in
    let parked = record me { send_va = a1 me; send_len = int_of (a2 me); waiting_recv = false } in
    let tasks = enqueue_sender (update k.tasks cur parked) dst cur in
    record k { tasks = update tasks cur (record (tasks cur) { state = blocked }) }

pub ipc_send : Kernel → ℕ → Bool → Option Kernel
ipc_send k cur nonblock =
    let me = k.tasks cur in
    elim (task_by_id k.tasks (int_of (a0 me))) [
      | none ↦ fail k cur
      | some dst ↦
          if is_unused (k.tasks dst).state || (dst == cur)
          then fail k cur
          else if wants (k.tasks dst) me
          then send_now k cur dst
          else if nonblock
          then fail k cur
          else schedule (park_sender k cur dst)
    ]

-- A sender was parked: complete the rendezvous.
pub recv_now : Kernel → ℕ → ℕ → ℕ → ℕ → Option Kernel
recv_now k cur s rva rlen =
    let snd = k.tasks s in
    let (n, k') = deliver k snd snd.send_va snd.send_len (k.tasks cur) rva rlen in
    elim n [
      | none ↦ fail k' cur
      | some _ ↦
          let k'' = put k' cur (set_a0 (k'.tasks cur) (sext32 snd.id)) in
          some (put k'' s (record (set_a0 (k''.tasks s) 0) { state = runnable }))
    ]

pub park_receiver : Kernel → ℕ → ℕ → ℕ → Bool → ℕ → Kernel
park_receiver k cur rva rlen closed want = put k cur (record (k.tasks cur) {
  recv_va = rva;
  recv_len = rlen;
  waiting_recv = true;
  recv_closed = closed;
  recv_from = want;
  state = blocked;
})

pub recv_queue : Kernel → ℕ → ℕ → ℕ → Bool → ℕ → Option Kernel
recv_queue k cur rva rlen closed want =
    let (s, tasks) = dequeue_sender k.tasks cur closed want in
    elim s [
      | some snd ↦ recv_now (record k { tasks = tasks }) cur snd rva rlen
      | none ↦ schedule (park_receiver k cur rva rlen closed want)
    ]

-- SYS_RECV: a pending interrupt first, then a pending alarm, then the queue.
pub recv_open : Kernel → ℕ → Option Kernel
recv_open k cur =
    let me = k.tasks cur in
    if me.irq_pending
    then some (put k cur (record (set_a0 me irq_sender) { irq_pending = false }))
    else if me.timer_pending
    then some (put k cur (record (set_a0 me timer_sender) { timer_pending = false }))
    else recv_queue k cur (a0 me) (int_of (a1 me)) false 0

-- SYS_RECVFROM
pub recv_from_one : Kernel → ℕ → Option Kernel
recv_from_one k cur =
    let me = k.tasks cur in
    elim (task_by_id k.tasks (int_of (a0 me))) [
      | none ↦ fail k cur
      | some _ ↦ recv_queue k cur (a1 me) (int_of (a2 me)) true (int_of (a0 me))
    ]

pub ipc_recv : Kernel → ℕ → Bool → Option Kernel
ipc_recv k cur closed = if closed then recv_from_one k cur else recv_open k cur

-- SYS_SEND, SYS_TRYSEND, SYS_RECV and SYS_RECVFROM, by their numbers in src/syscall.h: whether the
-- number was handled, and what became of the machine.
pub ipc_syscall : Kernel → ℕ → ℕ → Bool × Option Kernel
ipc_syscall k cur num =
    if num == 1
    then (true, ipc_send k cur false)
    else if num == 22
    then (true, ipc_send k cur true)
    else if num == 2
    then (true, ipc_recv k cur false)
    else if num == 24
    then (true, ipc_recv k cur true)
    else (false, some k)
