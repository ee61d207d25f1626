-- ===== src/Task/RoundRobin.antt =====
-- The order in which `schedule` tries the slots, when it parks, and that one task runs at a time.
use rvos.Common.{
  ℕ, zero, suc, ◌+◌, ◌-◌, ◌%◌, ◌<◌, ◌≡◌, ◌↔◌, inl, inr, true, false, none, some, arith, update,
  Bool-cases, Option-cases, subst, AllBelow, AllBelow-intro, AllBelow-at,
}
use rvos.Kernel.{Kernel, Tasks, ntask, is_runnable, running}
use rvos.Task.{demote, first_try, pick, schedule}

-- `i` is the slot tried at round `j`, and no slot tried before it can run.
pub record First (tasks : Tasks) (next left i : ℕ) : Type 0 where
  pub round : ℕ
  pub in_time : round < left
  pub slot : i ≡ (next + round) % ntask
  pub can_run : is_runnable (tasks i).state ≡ true
  pub none_before : (j : ℕ) → j < round → is_runnable (tasks ((next + j) % ntask)).state ≡ false

abbrev Idle : Tasks → ℕ → Type 0
Idle tasks n = is_runnable (tasks (n % ntask)).state ≡ false

First-later :
    (tasks : Tasks) (next left i : ℕ)
    → Idle tasks next
    → First tasks (next + 1) left i
    → First tasks next (suc left) i
First-later tasks next left i idle f = record {
  round = suc (f.round);
  in_time = omega (arith, f.in_time);
  slot = omega (arith, f.slot);
  can_run = f.can_run;
  none_before = earlier;
}
  where
    earlier : (j : ℕ) → j < suc (f.round) → Idle tasks (next + j)
    earlier zero h = subst (Idle tasks) (omega arith) idle
    earlier (suc j) h = subst (Idle tasks) (omega arith) (f.none_before j (omega arith))

First-now :
    (tasks : Tasks) (next left : ℕ)
    → is_runnable (tasks (next % ntask)).state ≡ true
    → First tasks next (suc left) (next % ntask)
First-now tasks next left y = record {
  round = 0;
  in_time = omega arith;
  slot = omega arith;
  can_run = y;
  none_before = λ j h. absurd (omega arith);
}

pick-First :
    (left next i : ℕ) (tasks : Tasks) → pick left next tasks ≡ some i → First tasks next left i
unfolding pick
pick-First zero next i tasks e = absurd (ground arith)
pick-First (suc left) next i tasks e =
    elim (Bool-cases (is_runnable (tasks (next % ntask)).state)) [
      | inl y ↦
          let same : next % ntask ≡ i = ground arith in
          subst (First tasks next (suc left)) same (First-now tasks next left y)
      | inr n ↦ First-later tasks next left i n (pick-First left (next + 1) i tasks (ground arith))
    ]

pick-none :
    (left next j : ℕ) (tasks : Tasks)
    → pick left next tasks ≡ none
    → j < left
    → Idle tasks (next + j)
unfolding pick
pick-none zero next j tasks e h = absurd (omega arith)
pick-none (suc left) next zero tasks e h =
    let idle : Idle tasks next = ground arith in subst (Idle tasks) (omega arith) idle
pick-none (suc left) next (suc j) tasks e h =
    subst (Idle tasks) (omega arith)
      (pick-none left (next + 1) j tasks (ground arith) (omega arith))

-- What `schedule` looks at: the table with the current task put back among the runnable.
abbrev pub ready : Kernel → Tasks
ready k = demote k.current k.tasks

schedule-pick :
    (k k' : Kernel)
    → schedule k ≡ some k'
    → (i : ℕ) × (pick ntask (first_try k.current k.tasks) (ready k) ≡ some i)
      × (k' ≡ record k {
        tasks = update (ready k) i (record (ready k i) { state = running });
        current = some i;
      })
unfolding schedule
schedule-pick k k' e = elim (Option-cases (pick ntask (first_try k.current k.tasks) (ready k))) [
  | inl n ↦ absurd (ground arith)
  | inr (i, p) ↦ (i, p, ground arith)
]

-- `schedule` runs the first task that can run in the order that starts one past the current id
-- (modulo the size of the table), tries all 24 slots, and changes nothing but the two states.
pub schedule-First :
    (k k' : Kernel)
    → schedule k ≡ some k'
    → (i : ℕ) × First (ready k) (first_try k.current k.tasks) ntask i
      × (k' ≡ record k {
        tasks = update (ready k) i (record (ready k i) { state = running });
        current = some i;
      })
schedule-First k k' e =
    let (i, p, shape) = schedule-pick k k' e in
    (i, pick-First ntask (first_try k.current k.tasks) i (ready k) p, shape)

every_slot : (n i : ℕ) → i < 24 → (n + (i + 24 - n % 24) % 24) % 24 ≡ i
every_slot n i h = omega arith

-- It parks for ever exactly when no slot of the table can run.
pub schedule-none :
    (k : Kernel) → (schedule k ≡ none) ↔ AllBelow ntask (λ i. is_runnable (ready k i).state ≡ false)
unfolding schedule
schedule-none k = (
  λ e. AllBelow-intro ntask _ (λ i h.
      let n = first_try k.current k.tasks in
      subst (λ s. is_runnable (ready k s).state ≡ false) (every_slot n i h)
        (pick-none ntask n ((i + 24 - n % 24) % 24) (ready k) (ground arith) (omega arith))),
  λ idle. elim (Option-cases (pick ntask (first_try k.current k.tasks) (ready k))) [
    | inl n ↦ rw (n, schedule)
    | inr (i, p) ↦
        let f = pick-First ntask (first_try k.current k.tasks) i (ready k) p in
        absurd (
          ground (
            arith,
            f.can_run,
            f.slot,
            AllBelow-at ntask (λ s. is_runnable (ready k s).state ≡ false) i idle,
          ))
  ],
)
