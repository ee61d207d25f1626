-- ===== src/Task.antt =====
-- src/task.c: slots, ids and the scheduler.
pub mod Ids
pub mod RoundRobin
pub mod Fairness
pub mod Tests
use rvos.Common.{
  ℕ, zero, suc, ◌+◌, ◌*◌, ◌/◌, ◌%◌, ◌^◌, Bool, true, false, ◌&&◌, ◌||◌, not, Option, none, some,
  ltb, leb, ◌==◌, ◌!=◌, if◌then◌else◌, update,
}
use rvos.Kernel.{
  Kernel, Task, Tasks, ntask, zero_task, is_unused, is_runnable, is_running, runnable, running,
}

-- A slot that was never used or has been reclaimed.
abbrev pub is_free : Task → Bool
is_free t = is_unused t.state && (t.pt == 0)

-- `i | (gen << 8)` of a slot below 256.
abbrev pub make_id : ℕ → ℕ → ℕ
make_id i gen = (i + gen * 256) % 2 ^ 32

pub find_free : ℕ → ℕ → Tasks → Option ℕ
find_free zero i tasks = none
find_free (suc left) i tasks =
    let rest = find_free left (i + 1) tasks in if is_free (tasks i) then some i else rest

abbrev pub fresh_task : ℕ → ℕ → Task
fresh_task i gen = record zero_task { gen = gen; id = make_id i gen }

pub alloc_slot : Tasks → Option (ℕ × Tasks)
alloc_slot tasks = elim (find_free ntask 0 tasks) [
  | none ↦ none
  | some i ↦ some (i, update tasks i (fresh_task i (tasks i).gen))
]

-- TASK_SLOT(id)
abbrev pub task_slot : ℕ → ℕ
task_slot id = id % 256

unfoldable pub task_by_id : Tasks → ℕ → Option ℕ
task_by_id tasks id =
    let i = task_slot id in
    if leb ntask i
    then none
    else if is_free (tasks i)
    then none
    else if (tasks i).id != id
    then none
    else some i

-- A task that is running when the scheduler is called goes back among the runnable.
abbrev pub demoted : Task → Task
demoted t = if is_running t.state then record t { state = runnable } else t

pub demote : Option ℕ → Tasks → Tasks
demote none tasks = tasks
demote (some c) tasks = update tasks c (demoted (tasks c))

-- `start + 1`: the index that the loop tries first, before it is reduced.
pub first_try : Option ℕ → Tasks → ℕ
first_try none tasks = 0
first_try (some c) tasks = (tasks c).id + 1

-- `&tasks[(start + i) % NTASK]`, for the `left` values of i that are left. An id is an int that is
-- not negative: 2 ^ 23 lives of a slot.
pub pick : ℕ → ℕ → Tasks → Option ℕ
pick zero next tasks = none
pick (suc left) next tasks =
    let i = next % ntask in
    let rest = pick left (next + 1) tasks in if is_runnable (tasks i).state then some i else rest

-- `none` is the loop of wfi, which nothing leaves.
pub schedule : Kernel → Option Kernel
schedule k =
    let tasks = demote k.current k.tasks in
    elim (pick ntask (first_try k.current k.tasks) tasks) [
      | none ↦ none
      | some i ↦ some (record k {
        tasks = update tasks i (record (tasks i) { state = running });
        current = some i;
      })
    ]
