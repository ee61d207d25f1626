-- ===== src/Trap/Alarms.antt =====
-- What a tick does to every slot of the table.
use rvos.Common.{
  ℕ, zero, suc, ◌+◌, ◌≤◌, ◌<◌, ◌≡◌, refl, ap, ◌∙◌, ◌≢◌, ◌⊎◌, sym, subst, ◌&&◌, true, false, arith,
  ◌==◌, update, ==_iff, inl, inr, Bool-cases, update_self, update_ne,
}
use rvos.Kernel.{is_blocked, Kernel, Task, Tasks, ntask, blocked, runnable, is_unused}
use rvos.Ipc.{a0, timer_sender}
use rvos.Trap.{alarm_one, alarms_loop, alarms_check}

loop_before : (left i j now : ℕ) (tasks : Tasks) → j < i → alarms_loop left i now tasks j ≡ tasks j
unfolding alarms_loop
loop_before zero i j now tasks h = refl
loop_before (suc left) i j now tasks h =
    loop_before left (i + 1) j now (update tasks i (alarm_one now (tasks i))) (omega arith)
    ∙ update_ne tasks i (alarm_one now (tasks i)) j (omega arith)

loop_within :
    (left i j now : ℕ) (tasks : Tasks)
    → i ≤ j
    → j < i + left
    → alarms_loop left i now tasks j ≡ alarm_one now (tasks j)
unfolding alarms_loop
loop_within zero i j now tasks low high = absurd (omega arith)
loop_within (suc left) i j now tasks low high = elim (Bool-cases (i == j)) [
  | inl e ↦
      loop_before left (i + 1) j now (update tasks i (alarm_one now (tasks i))) (ground arith)
      ∙ rw ((==_iff i j).0 e) (update_self tasks j (alarm_one now (tasks j)))
  | inr n ↦
      loop_within left (i + 1) j now (update tasks i (alarm_one now (tasks i))) (ground arith)
        (omega arith)
      ∙ ap (alarm_one now) (update_ne tasks i (alarm_one now (tasks i)) j (ground arith))
]

tasks-alarms_check :
    (now i : ℕ) (k : Kernel) → i < ntask → (alarms_check now k).tasks i ≡ alarm_one now (k.tasks i)
unfolding alarms_check
tasks-alarms_check now i k inside = loop_within ntask 0 i now k.tasks (omega arith) (omega arith)

-- What a due alarm leaves: it is spent, and either the task was in a receive and returns from it
-- with TIMER_SENDER, or it will find the alarm in its next receive and goes on as it was.
abbrev pub Rung : Task → Task → Type 0
Rung t t' =
    (t'.alarm_at ≡ 0)
    × (((t.waiting_recv ≡ true) × (t'.state ≡ runnable) × (a0 t' ≡ timer_sender))
        ⊎ ((t'.state ≡ t.state) × (t'.timer_pending ≡ true)))

due_rings :
    (now : ℕ) (t : Task)
    → is_unused t.state ≡ false
    → t.alarm_at ≢ 0
    → t.alarm_at ≤ now
    → Rung t (alarm_one now t)
unfolding alarm_one
due_rings now t lives set due = elim (Bool-cases (is_blocked t.state && t.waiting_recv)) [
  | inl y ↦ (ground arith, inl (ground arith, ground arith, ground arith))
  | inr n ↦ (ground arith, inr (ground arith, ground arith))
]

-- No alarm that has come due is lost at a tick.
alarms_check-Rung :
    (now i : ℕ) (k : Kernel)
    → i < ntask
    → is_unused (k.tasks i).state ≡ false
    → (k.tasks i).alarm_at ≢ 0
    → (k.tasks i).alarm_at ≤ now
    → Rung (k.tasks i) ((alarms_check now k).tasks i)
alarms_check-Rung now i k inside lives set due =
    subst (Rung (k.tasks i)) (sym (tasks-alarms_check now i k inside))
      (due_rings now (k.tasks i) lives set due)

-- A closed receive does not keep a due alarm away: the task returns from it with TIMER_SENDER,
-- though it was waiting for one task only.
pub alarms_check-closed :
    (now i : ℕ) (k : Kernel)
    → i < ntask
    → (k.tasks i).state ≡ blocked
    → (k.tasks i).waiting_recv ≡ true
    → (k.tasks i).recv_closed ≡ true
    → (k.tasks i).alarm_at ≢ 0
    → (k.tasks i).alarm_at ≤ now
    → (((alarms_check now k).tasks i).state ≡ runnable)
      × (a0 ((alarms_check now k).tasks i) ≡ timer_sender)
      × (((alarms_check now k).tasks i).timer_pending ≡ (k.tasks i).timer_pending)
unfolding alarm_one
alarms_check-closed now i k inside stuck receiving closed set due =
    rw (tasks-alarms_check now i k inside) (ground arith)
