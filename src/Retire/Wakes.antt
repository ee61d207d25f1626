-- ===== src/Retire/Wakes.antt =====
-- Who is woken when a task ends, and that its id names nobody afterwards.
use rvos.Common.{
  ℕ, zero, suc, ◌+◌, ◌≤◌, ◌<◌, ◌≡◌, ◌≢◌, refl, ap, ◌∙◌, sym, Bool, true, false, ◌||◌, ◌&&◌, Option,
  none, some, arith, ◌==◌, if◌then◌else◌, update, ==_iff, inl, inr, Bool-cases, update_self,
  update_ne,
}
use rvos.Kernel.{Kernel, Task, Tasks, ntask, is_blocked, blocked, runnable}
use rvos.Task.{task_by_id, task_slot, is_free}
use rvos.Ipc.{relink}
use rvos.Retire.{
  released, drain, leave_queue, leave_queues, wake_waiter, wake_receiver, wake_loop, settle,
  retired, task_retire,
}
use rvos.Ipc.Outcomes.{either_branch}
use rvos.Namespaces.Sweep.{tasks-ns_gc}

tasks-task_retire :
    (k : Kernel) (t : ℕ)
    → (task_retire k t).tasks ≡ update (settle k.tasks t) t (retired (settle k.tasks t t))
unfolding task_retire
tasks-task_retire k t = tasks-ns_gc _

-- Once a task has been retired, no id names its slot.
task_retire-unnamed :
    (k : Kernel) (id : ℕ) → task_by_id (task_retire k (task_slot id)).tasks id ≡ none
unfolding task_by_id
task_retire-unnamed k id =
    let t = task_slot id in
    let free : is_free ((task_retire k t).tasks t) ≡ true =
      ap (λ (ts : Tasks). is_free (ts t)) (tasks-task_retire k t)
      ∙ ap is_free (update_self (settle k.tasks t) t (retired (settle k.tasks t t))) in
    rw free (ground arith)

wake_before :
    (left i j : ℕ) (tasks : Tasks) (id : ℕ) → j < i → wake_loop left i tasks id j ≡ tasks j
unfolding wake_loop
wake_before zero i j tasks id h = refl
wake_before (suc left) i j tasks id h =
    wake_before left (i + 1) j (update tasks i (wake_receiver id (wake_waiter id (tasks i)))) id
      (omega arith)
    ∙ update_ne tasks i (wake_receiver id (wake_waiter id (tasks i))) j (omega arith)

wake_within :
    (left i j : ℕ) (tasks : Tasks) (id : ℕ)
    → i ≤ j
    → j < i + left
    → wake_loop left i tasks id j ≡ wake_receiver id (wake_waiter id (tasks j))
unfolding wake_loop
wake_within zero i j tasks id low high = absurd (omega arith)
wake_within (suc left) i j tasks id low high = elim (Bool-cases (i == j)) [
  | inl e ↦
      wake_before left (i + 1) j (update tasks i (wake_receiver id (wake_waiter id (tasks i)))) id
        (ground arith)
      ∙ rw ((==_iff i j).0 e) (update_self tasks j (wake_receiver id (wake_waiter id (tasks j))))
  | inr n ↦
      wake_within left (i + 1) j (update tasks i (wake_receiver id (wake_waiter id (tasks i)))) id
        (ground arith) (omega arith)
      ∙ ap (λ u. wake_receiver id (wake_waiter id u))
          (update_ne tasks i (wake_receiver id (wake_waiter id (tasks i))) j (ground arith))
]

abbrev SameIds : Tasks → Tasks → Type 0
SameIds tasks tasks' = (i : ℕ) → (tasks' i).id ≡ (tasks i).id

-- A field that has nothing to do with the links of queues stays as it is when `t` leaves them.
module _ {B : Type 0} (field : Task → B)
    (by_next : (u : Task) (o : Option ℕ) → field (record u { send_next = o }) ≡ field u)
    (by_head : (u : Task) (o : Option ℕ) → field (record u { wait_sender = o }) ≡ field u) where
  field-update :
      (tasks : Tasks) (x j : ℕ) (u : Task)
      → field u ≡ field (tasks x)
      → field (update tasks x u j) ≡ field (tasks j)
  field-update tasks x j u e = elim (Bool-cases (x == j)) [
    | inl y ↦
        ap (λ b. field (if b then u else tasks j)) y
        ∙ e
        ∙ ap (λ n. field (tasks n)) ((==_iff x j).0 y)
    | inr n ↦ ap (λ b. field (if b then u else tasks j)) n
  ]

  field-relink :
      (tasks : Tasks) (recv j : ℕ) (prev next : Option ℕ)
      → field (relink tasks recv prev next j) ≡ field (tasks j)
  field-relink tasks recv j none next =
      field-update tasks recv j (record (tasks recv) { wait_sender = next })
        (by_head (tasks recv) next)
  field-relink tasks recv j (some p) next =
      field-update tasks p j (record (tasks p) { send_next = next }) (by_next (tasks p) next)

  field-leave_queue :
      (fuel : ℕ) (tasks : Tasks) (i t : ℕ) (prev s : Option ℕ) (j : ℕ)
      → field (leave_queue fuel tasks i t prev s j) ≡ field (tasks j)
  unfolding leave_queue
  field-leave_queue zero tasks i t prev s j = refl
  field-leave_queue (suc fuel) tasks i t prev none j = refl
  field-leave_queue (suc fuel) tasks i t prev (some s) j =
      let linked = relink tasks i prev (tasks s).send_next in
      either_branch (λ (ts : Tasks). field (ts j) ≡ field (tasks j)) (s == t)
        (field-update linked s j (record (linked s) { send_next = none }) (by_next (linked s) none)
          ∙ field-relink tasks i j prev (tasks s).send_next)
        (field-leave_queue fuel tasks i t (some s) (tasks s).send_next j)

  field-leave_queues :
      (left i : ℕ) (tasks : Tasks) (t j : ℕ)
      → field (leave_queues left i tasks t j) ≡ field (tasks j)
  unfolding leave_queues
  field-leave_queues zero i tasks t j = refl
  field-leave_queues (suc left) i tasks t j =
      field-leave_queues left (i + 1) (leave_queue (suc ntask) tasks i t none (tasks i).wait_sender)
        t j
      ∙ field-leave_queue (suc ntask) tasks i t none (tasks i).wait_sender j

drain-SameIds : (fuel : ℕ) (tasks : Tasks) (s : Option ℕ) → SameIds tasks (drain fuel tasks s)
unfolding drain
drain-SameIds zero tasks s i = refl
drain-SameIds (suc fuel) tasks none i = refl
drain-SameIds (suc fuel) tasks (some s) i =
    drain-SameIds fuel (update tasks s (released (tasks s))) (tasks s).send_next i
    ∙ ground (arith, ==_iff s i)

-- The tasks just before those who wait for `t` are woken.
abbrev cleared : Tasks → ℕ → Tasks
cleared tasks t =
    let drained = drain (suc ntask) tasks (tasks t).wait_sender in
    leave_queues ntask 0
      (update drained t (record (drained t) { wait_sender = none; waiting_recv = false })) t

id-cleared : (tasks : Tasks) (t : ℕ) → (cleared tasks t t).id ≡ (tasks t).id
id-cleared tasks t =
    let drained = drain (suc ntask) tasks (tasks t).wait_sender in
    field-leave_queues (λ u. u.id) (λ u o. refl) (λ u o. refl) ntask 0
      (update drained t (record (drained t) { wait_sender = none; waiting_recv = false })) t t
    ∙ ap (λ (u : Task). u.id)
        (update_self drained t (record (drained t) { wait_sender = none; waiting_recv = false }))
    ∙ drain-SameIds (suc ntask) tasks (tasks t).wait_sender t

-- Blocked until the task of that id is gone, or until it sends.
abbrev pub waits_for : ℕ → Task → Bool
waits_for id u =
    is_blocked u.state
    && ((u.wait_for == id) || (u.waiting_recv && u.recv_closed && (u.recv_from == id)))

woken-waits_for : (id : ℕ) (u : Task) → waits_for id (wake_receiver id (wake_waiter id u)) ≡ false
woken-waits_for id u = ground arith

retired_at :
    (k : Kernel) (t i : ℕ)
    → i < ntask
    → i ≢ t
    → (task_retire k t).tasks i
      ≡ wake_receiver (k.tasks t).id (wake_waiter (k.tasks t).id (cleared k.tasks t i))
unfolding settle
retired_at k t i inside other =
    ap (λ (ts : Tasks). ts i) (tasks-task_retire k t)
    ∙ update_ne (settle k.tasks t) t (retired (settle k.tasks t t)) i (λ e. other (sym e))
    ∙ ap (λ n. wake_loop ntask 0 (cleared k.tasks t) n i) (id-cleared k.tasks t)
    ∙ wake_within ntask 0 i (cleared k.tasks t) (k.tasks t).id (omega arith) (omega arith)

-- After a retirement nobody is left blocked until that task is gone, or in a closed receive from it.
pub task_retire-waits_for :
    (k : Kernel) (t i : ℕ)
    → i < ntask
    → i ≢ t
    → waits_for (k.tasks t).id ((task_retire k t).tasks i) ≡ false
task_retire-waits_for k t i inside other =
    ap (waits_for (k.tasks t).id) (retired_at k t i inside other)
    ∙ woken-waits_for (k.tasks t).id (cleared k.tasks t i)

field-cleared :
    {B : Type 0} (field : Task → B)
    (by_next : (u : Task) (o : Option ℕ) → field (record u { send_next = o }) ≡ field u)
    (by_head : (u : Task) (o : Option ℕ) → field (record u { wait_sender = o }) ≡ field u)
    (tasks : Tasks) (t i : ℕ)
    → i ≢ t
    → (tasks t).wait_sender ≡ none
    → field (cleared tasks t i) ≡ field (tasks i)
unfolding drain
field-cleared field by_next by_head tasks t i other no_sender =
    let drained = drain (suc ntask) tasks (tasks t).wait_sender in
    let left = record (drained t) { wait_sender = none; waiting_recv = false } in
    field-leave_queues field by_next by_head ntask 0 (update drained t left) t i
    ∙ ap field (update_ne drained t left i (λ e. other (sym e)))
    ∙ ap (λ o. field (drain (suc ntask) tasks o i)) no_sender

woken_by_zero :
    (u : Task)
    → u.state ≡ blocked
    → u.wait_for ≡ 0
    → let v = wake_receiver 0 (wake_waiter 0 u) in (v.state ≡ runnable) × (v.ctx.x 10 ≡ 0)
woken_by_zero u stuck no_wait = ground arith

-- Where the task with id 0 ends with no sender waiting, a task that is blocked on anything but a task
-- (its field wait_for is 0) is woken as if it had waited for that one: it can run, and reads 0.
pub task_retire-zero :
    (k : Kernel) (t i : ℕ)
    → i < ntask
    → i ≢ t
    → (k.tasks t).id ≡ 0
    → (k.tasks t).wait_sender ≡ none
    → (k.tasks i).state ≡ blocked
    → (k.tasks i).wait_for ≡ 0
    → (((task_retire k t).tasks i).state ≡ runnable) × (((task_retire k t).tasks i).ctx.x 10 ≡ 0)
task_retire-zero k t i inside other zero_id no_sender stuck no_wait =
    let u = cleared k.tasks t i in
    let same =
      retired_at k t i inside other ∙ ap (λ n. wake_receiver n (wake_waiter n u)) zero_id in
    let (run, zero_result) =
      woken_by_zero u
        (field-cleared (λ v. v.state) (λ v o. refl) (λ v o. refl) k.tasks t i other no_sender
          ∙ stuck)
        (field-cleared (λ v. v.wait_for) (λ v o. refl) (λ v o. refl) k.tasks t i other no_sender
          ∙ no_wait) in
    (ap (λ (v : Task). v.state) same ∙ run, ap (λ (v : Task). v.ctx.x 10) same ∙ zero_result)
