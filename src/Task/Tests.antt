-- ===== src/Task/Tests.antt =====
-- Three tasks: slot 0 runs, slots 1 and 17 can.
use rvos.Common.{ℕ, ◌≡◌, refl, none, some, List, arith, update}
use rvos.Kernel.{Kernel, Task, Tasks, TaskState, ntask, zero_task, runnable, running}
use rvos.Task.{demote, first_try, pick, schedule}
use rvos.Task.RoundRobin.{First, ready, schedule-First}
use rvos.Task.Fairness.{OneRunner, schedule-OneRunner, schedule_starves}

abbrev a_task : ℕ → TaskState → Task
a_task id state = record zero_task { id = id; pt = 0x8000_1000; state = state }

abbrev slots : Tasks
slots =
    update (update (update (λ i. zero_task) 0 (a_task 0 running)) 1 (a_task 1 runnable)) 17
      (a_task 17 runnable)

abbrev kernel_of : Tasks → Kernel
kernel_of tasks = record {
  machine = record { mem = λ i. 0; freelist = 0; nfree = 0; ntotal = 0 };
  tasks = tasks;
  current = some 0;
  irq_owner = λ i. none;
  ns_pool = λ i. 0;
  ns_at = λ i. List.[];
}

abbrev three : Kernel
three = kernel_of slots

abbrev after_one : Kernel
after_one = record three {
  tasks = update (ready three) 1 (record (ready three 1) { state = running });
  current = some 1;
}

schedule-First_example :
    (i : ℕ) × First (ready three) (first_try three.current three.tasks) ntask i
    × (after_one ≡ record three {
      tasks = update (ready three) i (record (ready three i) { state = running });
      current = some i;
    })
unfolding schedule demote first_try pick
schedule-First_example = schedule-First three after_one refl

one_runner : OneRunner three
one_runner i h = ground (arith, h)

schedule-OneRunner_example :
    OneRunner after_one
    × ((i : ℕ) × (after_one.current ≡ some i) × ((after_one.tasks i).state ≡ running))
unfolding schedule demote first_try pick
schedule-OneRunner_example = schedule-OneRunner three after_one one_runner refl

-- Slot 0 has had one life before; only slot 1 waits.
abbrev starving : Kernel
starving = kernel_of (update (update (λ i. zero_task) 0 (a_task 256 running)) 1 (a_task 1 runnable))

schedule_starves_example : schedule starving ≡ some starving
unfolding demote
schedule_starves_example =
    schedule_starves starving 0 0 refl (omega arith) refl refl
      (refl, (refl, (refl, (refl, (refl, (refl, (refl, tt)))))))
