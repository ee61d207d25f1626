-- ===== src/Ipc/Outcomes.antt =====
-- What a send and a receive leave behind, errors included.
use rvos.Common.{
  ℕ, ◌≡◌, refl, sym, ap, ◌∙◌, ◌⊎◌, inl, inr, Bool, true, false, ◌||◌, Option, none, some, ◌==◌,
  if◌then◌else◌, subst, update_self,
}
use rvos.Common.Words.{int_of, sext32, slt, minus_one}
use rvos.Vm.{vm_copy_across}
use rvos.Kernel.{Kernel, Task, Tasks, runnable, is_unused}
use rvos.Task.{task_by_id}
use rvos.Ipc.{a0, a1, a2, put, set_a0, wants, deliver, fail, send_now, ipc_send}

pub either_branch :
    {A : Type 0} (P : A → Type 0) (b : Bool) {x y : A} → P x → P y → P (if b then x else y)
either_branch P true p q = p
either_branch P false p q = q

-- What a copy leaves alone: the tasks and whose turn it is.
abbrev pub Kept : Kernel → Kernel → Type 0
Kept k k' = (k'.tasks ≡ k.tasks) × (k'.current ≡ k.current)

pub tasks-deliver :
    (k : Kernel) (snd rcv : Task) (sva slen rva rlen : ℕ)
    → Kept k (deliver k snd sva slen rcv rva rlen).1
unfolding deliver
tasks-deliver k snd rcv sva slen rva rlen =
    let n = if slt slen rlen then slen else rlen in
    let copied = vm_copy_across k.machine.mem rcv.pt rva snd.pt sva n in
    either_branch (λ (r : Option ℕ × Kernel). Kept k r.1) (slt 0 n)
      (either_branch (λ (r : Option ℕ × Kernel). Kept k r.1) copied.0 (refl, refl) (refl, refl))
      (refl, refl)

-- The caller goes on: the machine has not switched, and the caller is in the state it was in, with
-- 0 or -1 as its result.
pub record GoesOn (k : Kernel) (cur : ℕ) (k' : Kernel) : Type 0 where
  pub same_task : k'.current ≡ k.current
  pub same_state : (k'.tasks cur).state ≡ (k.tasks cur).state
  pub result : (a0 (k'.tasks cur) ≡ 0) ⊎ (a0 (k'.tasks cur) ≡ minus_one)

-- The call comes back to its caller, which goes on.
abbrev pub Returns : Kernel → ℕ → Option Kernel → Type 0
Returns k cur out = (k' : Kernel) × (out ≡ some k') × GoesOn k cur k'

-- The last write of a call is the caller's own slot.
put-Returns :
    (k k' : Kernel) (cur : ℕ) (t : Task)
    → k'.current ≡ k.current
    → t.state ≡ (k.tasks cur).state
    → (a0 t ≡ 0) ⊎ (a0 t ≡ minus_one)
    → Returns k cur (some (put k' cur t))
put-Returns k k' cur t c st r =
    let own : (put k' cur t).tasks cur ≡ t = update_self k'.tasks cur t in
    (
      put k' cur t,
      refl,
      record {
        same_task = c;
        same_state = ap (λ (u : Task). u.state) own ∙ st;
        result = subst (λ (u : Task). (a0 u ≡ 0) ⊎ (a0 u ≡ minus_one)) (sym own) r;
      },
    )

a0-set_a0 : (t : Task) (v : ℕ) → a0 (set_a0 t v) ≡ v
a0-set_a0 t v = update_self t.ctx.x 10 v

fail-Returns : (k k' : Kernel) (cur : ℕ) → Kept k k' → Returns k cur (fail k' cur)
fail-Returns k k' cur (t, c) =
    put-Returns k k' cur (set_a0 (k'.tasks cur) minus_one) c (ap (λ (ts : Tasks). (ts cur).state) t)
      (inr (a0-set_a0 (k'.tasks cur) minus_one))

either_case :
    {A B : Type 0} (P : A → Type 0) (o : Option B) {x : A} {y : B → A}
    → P x
    → ((b : B) → P (y b))
    → P (elim o [ none ↦ x | some b ↦ y b ])
either_case P none p q = p
either_case P (some b) p q = q b

send_now-Returns : (k : Kernel) (cur dst : ℕ) → Returns k cur (send_now k cur dst)
unfolding send_now
send_now-Returns k cur dst =
    let me = k.tasks cur in
    let d = k.tasks dst in
    let kept = tasks-deliver k me d (a1 me) (int_of (a2 me)) d.recv_va d.recv_len in
    let (n, k') = deliver k me (a1 me) (int_of (a2 me)) d d.recv_va d.recv_len in
    either_case (Returns k cur) n (fail-Returns k k' cur kept) (λ i.
      put-Returns k
        (put k' dst (record (set_a0 d (sext32 me.id)) {
          waiting_recv = false;
          recv_closed = false;
          state = runnable;
        }))
        cur (set_a0 me 0) (kept.1) refl (inl (a0-set_a0 me 0)))

-- A trysend comes back to its caller, whoever the receiver is and whatever it is doing: no other
-- task is scheduled, the caller keeps its state, and it reads 0 or -1.
pub ipc_send-Returns : (k : Kernel) (cur : ℕ) → Returns k cur (ipc_send k cur true)
unfolding ipc_send
ipc_send-Returns k cur =
    let me = k.tasks cur in
    let refused = fail-Returns k k cur (refl, refl) in
    either_case (Returns k cur) (task_by_id k.tasks (int_of (a0 me))) refused λ dst.
      either_branch (Returns k cur) (is_unused (k.tasks dst).state || (dst == cur)) refused (
        either_branch (Returns k cur) (wants (k.tasks dst) me) (send_now-Returns k cur dst) refused)
