-- ===== src/Ipc/Tests.antt =====
-- Slot 0 receives with slots 1 and 2 in its queue; slot 1 sends from memory that is not mapped.
use rvos.Common.{ℕ, ◌≡◌, refl, true, false, none, some, [], ◌∷◌, arith, update}
use rvos.Kernel.{Kernel, Task, Tasks, TaskState, zero_task, runnable, running, blocked}
use rvos.Memory.{load32, load64}
use rvos.Vm.{vm_copy_across, copy_loop, translate, translate_loop}
use rvos.Ipc.{enqueue_sender, dequeue_sender, dequeue_loop, deliver, ipc_send, recv_queue}
use rvos.Ipc.Queue.{Chain, enqueue_sender-Chain}
use rvos.Ipc.Dequeue.{dequeue_sender-Chain}
use rvos.Ipc.Outcomes.{Returns, ipc_send-Returns}
use rvos.Ipc.LostSender.{recv_loses_sender}

abbrev a_task : ℕ → TaskState → Task
a_task id state = record zero_task { id = id; pt = 0x8000_1000; state = state; send_len = 5 }

abbrev slots : Tasks
slots =
    update
      (update
        (update (update (λ i. zero_task) 0 (record (a_task 0 running) { wait_sender = some 1 })) 1
          (record (a_task 1 blocked) { send_next = some 2 }))
        2 (a_task 2 blocked))
      3 (a_task 3 runnable)

abbrev kernel : Kernel
kernel = record {
  machine = record { mem = λ i. 0; freelist = 0; nfree = 0; ntotal = 0 };
  tasks = slots;
  current = some 0;
  irq_owner = λ i. none;
  ns_pool = λ i. 0;
  ns_at = λ i. [];
}

queue-Chain : Chain slots (some 1) (1 ∷ 2 ∷ [])
queue-Chain = (refl, refl, (refl, refl, refl))

enqueue_sender-Chain_example :
    Chain (enqueue_sender slots 0 3) (enqueue_sender slots 0 3 0).wait_sender (1 ∷ 2 ∷ 3 ∷ [])
enqueue_sender-Chain_example =
    enqueue_sender-Chain slots 0 3 (1 ∷ 2 ∷ []) queue-Chain (omega arith) refl (omega arith)

-- A closed receive from task 2 takes the second in the queue.
dequeue_sender-Chain_example :
    ((dequeue_sender slots 0 true 2).0 ≡ some 2)
    × Chain
        (dequeue_sender slots 0 true 2).1
        ((dequeue_sender slots 0 true 2).1 0).wait_sender
        (1 ∷ [])
    × (((dequeue_sender slots 0 true 2).1 2).send_next ≡ none)
dequeue_sender-Chain_example =
    dequeue_sender-Chain slots 0 true 2 2 (1 ∷ []) [] queue-Chain (omega arith) (refl, tt) refl

ipc_send-Returns_example : Returns kernel 3 (ipc_send kernel 3 true)
ipc_send-Returns_example = ipc_send-Returns kernel 3

recv_loses_sender_example :
    (k' : Kernel) × (recv_queue kernel 0 0 64 false 0 ≡ some k')
    × ((k'.tasks 1).state ≡ blocked)
    × ((k'.tasks 1).send_next ≡ none)
    × Chain k'.tasks (k'.tasks 0).wait_sender (2 ∷ [])
unfolding dequeue_sender dequeue_loop deliver vm_copy_across copy_loop translate translate_loop
    load64 load32
recv_loses_sender_example =
    recv_loses_sender kernel 0 0 64 false 0 1 [] (2 ∷ []) queue-Chain (omega arith) tt refl refl
