-- ===== src/Ipc/LostSender.antt =====
-- A receive of src/ipc.c whose copy fails after the sender was taken out of the queue.
use rvos.Common.{
  ℕ, zero, suc, ◌≤◌, ◌≡◌, refl, sym, ap, ◌∙◌, Bool, true, Option, none, some, List, ◌∷◌, ◌++◌,
  arith, length, subst, ==_iff,
}
use rvos.Common.Words.{minus_one}
use rvos.Kernel.{Kernel, Tasks, ntask}
use rvos.Ipc.{
  set_a0, put, relink, unlink, accepts, dequeue_loop, dequeue_sender, deliver, fail, recv_now,
  recv_queue,
}
use rvos.Ipc.Queue.{Chain, Chain-frame}
use rvos.Ipc.Dequeue.{Unwanted, dequeue_sender-Chain}
use rvos.Ipc.Outcomes.{either_branch, tasks-deliver}

relink-state :
    (tasks : Tasks) (recv : ℕ) (prev next : Option ℕ) (i : ℕ)
    → (relink tasks recv prev next i).state ≡ (tasks i).state
relink-state tasks recv none next i = ground (arith, ==_iff recv i)
relink-state tasks recv (some p) next i = ground (arith, ==_iff p i)

unlink-state :
    (tasks : Tasks) (recv : ℕ) (prev : Option ℕ) (s i : ℕ)
    → (unlink tasks recv prev s i).state ≡ (tasks i).state
unlink-state tasks recv prev s i =
    ground (arith, ==_iff s i, relink-state tasks recv prev (tasks s).send_next i)

dequeue_loop-state :
    (f : ℕ) (tasks : Tasks) (recv : ℕ) (closed : Bool) (want : ℕ) (prev cur : Option ℕ) (i : ℕ)
    → ((dequeue_loop f tasks recv closed want prev cur).1 i).state ≡ (tasks i).state
unfolding dequeue_loop
dequeue_loop-state zero tasks recv closed want prev cur i = refl
dequeue_loop-state (suc f) tasks recv closed want prev none i = refl
dequeue_loop-state (suc f) tasks recv closed want prev (some s) i =
    either_branch (λ (r : Option ℕ × Tasks). (r.1 i).state ≡ (tasks i).state)
      (accepts closed want (tasks s)) (unlink-state tasks recv prev s i)
      (dequeue_loop-state f tasks recv closed want (some s) (tasks s).send_next i)

-- Writing a task's result register leaves the queues as they are.
put-next :
    (k : Kernel) (cur v i : ℕ)
    → ((put k cur (set_a0 (k.tasks cur) v)).tasks i).send_next ≡ (k.tasks i).send_next
put-next k cur v i = ground (arith, ==_iff cur i)

put-head :
    (k : Kernel) (cur v i : ℕ)
    → ((put k cur (set_a0 (k.tasks cur) v)).tasks i).wait_sender ≡ (k.tasks i).wait_sender
put-head k cur v i = ground (arith, ==_iff cur i)

put-state :
    (k : Kernel) (cur v i : ℕ)
    → ((put k cur (set_a0 (k.tasks cur) v)).tasks i).state ≡ (k.tasks i).state
put-state k cur v i = ground (arith, ==_iff cur i)

recv_now-none :
    (k : Kernel) (cur s rva rlen : ℕ)
    → (deliver k (k.tasks s) (k.tasks s).send_va (k.tasks s).send_len (k.tasks cur) rva rlen).0
      ≡ none
    → recv_now k cur s rva rlen
      ≡ fail
          (deliver k (k.tasks s) (k.tasks s).send_va (k.tasks s).send_len (k.tasks cur) rva rlen).1
          cur
unfolding recv_now
recv_now-none k cur s rva rlen fails = rw (recv_now, fails)

recv_queue-some :
    (k : Kernel) (cur rva rlen : ℕ) (closed : Bool) (want s : ℕ)
    → (dequeue_sender k.tasks cur closed want).0 ≡ some s
    → recv_queue k cur rva rlen closed want
      ≡ recv_now (record k { tasks = (dequeue_sender k.tasks cur closed want).1 }) cur s rva rlen
unfolding recv_queue
recv_queue-some k cur rva rlen closed want s found = rw (recv_queue, found)

-- The receive with its sender out of the queue, and the copy it then makes.
abbrev pub taken : Kernel → ℕ → Bool → ℕ → Kernel
taken k cur closed want = record k { tasks = (dequeue_sender k.tasks cur closed want).1 }

abbrev pub copied : Kernel → ℕ → ℕ → ℕ → ℕ → Option ℕ
copied k cur s rva rlen =
    (deliver k (k.tasks s) (k.tasks s).send_va (k.tasks s).send_len (k.tasks cur) rva rlen).0

-- A receive takes the first acceptable sender out of the queue before it copies. Where the copy
-- fails, the call returns with the sender in the state it was in, its own link empty, and the queue
-- of the receiver without it.
pub recv_loses_sender :
    (k : Kernel) (cur rva rlen : ℕ) (closed : Bool) (want s : ℕ) (front back : List ℕ)
    → Chain k.tasks (k.tasks cur).wait_sender (front ++ (s ∷ back))
    → length front ≤ ntask
    → Unwanted k.tasks closed want front
    → accepts closed want (k.tasks s) ≡ true
    → copied (taken k cur closed want) cur s rva rlen ≡ none
    → (k' : Kernel) × (recv_queue k cur rva rlen closed want ≡ some k')
      × ((k'.tasks s).state ≡ (k.tasks s).state)
      × ((k'.tasks s).send_next ≡ none)
      × Chain k'.tasks (k'.tasks cur).wait_sender (front ++ back)
unfolding dequeue_sender
recv_loses_sender k cur rva rlen closed want s front back c short skip take fails =
    let (found, c', next) =
      dequeue_sender-Chain k.tasks cur closed want s front back c short skip take in
    let k1 : Kernel = record k { tasks = (dequeue_sender k.tasks cur closed want).1 } in
    let snd = k1.tasks s in
    let k2 = (deliver k1 snd snd.send_va snd.send_len (k1.tasks cur) rva rlen).1 in
    let (same, _) = tasks-deliver k1 snd (k1.tasks cur) snd.send_va snd.send_len rva rlen in
    let k' = put k2 cur (set_a0 (k2.tasks cur) minus_one) in
    (
      k',
      recv_queue-some k cur rva rlen closed want s found ∙ recv_now-none k1 cur s rva rlen fails,
      put-state k2 cur minus_one s
          ∙ ap (λ (ts : Tasks). (ts s).state) same
          ∙ dequeue_loop-state (suc ntask) k.tasks cur closed want none (k.tasks cur).wait_sender s,
      put-next k2 cur minus_one s ∙ ap (λ (ts : Tasks). (ts s).send_next) same ∙ next,
      subst (λ o. Chain k'.tasks o (front ++ back))
          (sym (put-head k2 cur minus_one cur ∙ ap (λ (ts : Tasks). (ts cur).wait_sender) same))
          (Chain-frame k1.tasks k'.tasks (k1.tasks cur).wait_sender (front ++ back)
            (λ i h. put-next k2 cur minus_one i ∙ ap (λ (ts : Tasks). (ts i).send_next) same) c'),
    )
