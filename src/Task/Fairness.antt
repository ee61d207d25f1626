-- ===== src/Task/Fairness.antt =====
-- Who runs next: one task at a time, round robin as long as the generation of the current slot is a
-- multiple of three, and starvation otherwise, since the rotation starts from an id and not a slot.
use native.Mathlib.Decide.{dec_lt}
use rvos.Common.{
  ℕ, ◌+◌, ◌*◌, ◌%◌, ◌<◌, ◌≡◌, refl, sym, ap, ◌∙◌, ◌≢◌, inl, inr, true, false, Option, none, some,
  arith, ◌==◌, update, fun_ext, Bool-cases, Option-cases, ==_refl, ==_iff, AllBelow, AllBelow-at,
}
use rvos.Kernel.{Kernel, Task, Tasks, ntask, is_runnable, is_running, runnable, running}
use rvos.Task.{demote, demoted, first_try, schedule}
use rvos.Task.RoundRobin.{First, ready, schedule-First, schedule-none}

-- Only the current task is marked as running.
abbrev pub OneRunner : Kernel → Type 0
OneRunner k = (i : ℕ) → (k.tasks i).state ≡ running → k.current ≡ some i

ready-not_running :
    (c : Option ℕ) (tasks : Tasks) (i : ℕ)
    → ((j : ℕ) → (tasks j).state ≡ running → c ≡ some j)
    → (demote c tasks i).state ≢ running
unfolding demote
ready-not_running none tasks i one e = ground (arith, one i e)
ready-not_running (some c) tasks i one e = elim (Bool-cases (c == i)) [
  | inl y ↦ ground arith
  | inr n ↦ ground (arith, one i)
]

-- Switching tasks leaves exactly one task running, the current one.
pub schedule-OneRunner :
    (k k' : Kernel)
    → OneRunner k
    → schedule k ≡ some k'
    → OneRunner k' × ((i : ℕ) × (k'.current ≡ some i) × ((k'.tasks i).state ≡ running))
schedule-OneRunner k k' one e =
    let (i, first, shape) = schedule-First k k' e in
    rw shape (
      λ j r. elim (Bool-cases (i == j)) [
        | inl y ↦ ap some ((==_iff i j).0 y)
        | inr n ↦ absurd (ready-not_running k.current k.tasks j one (ground arith))
      ],
      (i, refl, ground (arith, ==_refl i)),
    )

first_try-eq :
    (k : Kernel) (c : ℕ) → k.current ≡ some c → first_try k.current k.tasks ≡ (k.tasks c).id + 1
unfolding first_try
first_try-eq k c cur = rw cur

ready_self :
    (k : Kernel) (c : ℕ)
    → k.current ≡ some c
    → (k.tasks c).state ≡ running
    → (ready k c).state ≡ runnable
unfolding demote
ready_self k c cur run = rw cur (ground (arith, ==_refl c))

resumed_task : (t : Task) → t.state ≡ running → record (demoted t) { state = running } ≡ t
resumed_task t run =
    let marked : is_running t.state ≡ true = rw run in
    let was : demoted t ≡ record t { state = runnable } = rw marked in
    ap (λ (u : Task). record u { state = running }) was ∙ (λ i. record t { state = sym run i })

-- Running the same task again puts the table back as it was.
resumed :
    (k : Kernel) (c : ℕ)
    → k.current ≡ some c
    → (k.tasks c).state ≡ running
    → update (ready k) c (record (ready k c) { state = running }) ≡ k.tasks
unfolding demote
resumed k c cur run =
    rw (cur, demote)
      (fun_ext λ j. elim (Bool-cases (c == j)) [
        | inl y ↦
            let same : c ≡ j = (==_iff c j).0 y in
            rw (y, ==_refl c) (resumed_task (k.tasks c) run ∙ ap (k.tasks) same)
        | inr n ↦ rw n
      ])

-- A current task whose slot has had 3 n + 1 lives before is tried again before the sixteen slots
-- after it: if it yields and the other seven cannot run, `schedule` resumes it and changes nothing.
pub schedule_starves :
    (k : Kernel) (c gen : ℕ)
    → k.current ≡ some c
    → c < ntask
    → (k.tasks c).state ≡ running
    → (k.tasks c).id ≡ c + 256 * (3 * gen + 1)
    → AllBelow 7 (λ l. is_runnable (ready k ((c + 17 + l) % ntask)).state ≡ false)
    → schedule k ≡ some k
schedule_starves k c gen cur small run named idle = elim (Option-cases (schedule k)) [
  | inl parked ↦ absurd (
      ground (
        arith,
        own,
        AllBelow-at ntask (λ s. is_runnable (ready k s).state ≡ false) c
            ((schedule-none k).0 parked) small,
      ))
  | inr (k', e) ↦
      let (i, first, shape) = schedule-First k k' e in
      let r = seventh first in
      let here : i ≡ c = omega (arith, first.slot, first_try-eq k c cur, r) in
      let back : k' ≡ k =
        shape
        ∙ ap
            (λ (s : ℕ). record k {
              tasks = update (ready k) s (record (ready k s) { state = running });
              current = some s;
            })
            here
        ∙ (λ t. record k { tasks = resumed k c cur run t; current = sym cur t }) in
      e ∙ ap some back
]
  where
    own : is_runnable (ready k c).state ≡ true
    own = ap is_runnable (ready_self k c cur run)

    try : (t : ℕ) → (first_try k.current k.tasks + t) % ntask ≡ (c + 17 + t) % ntask
    try t = omega (arith, first_try-eq k c cur)

    seventh : {i : ℕ} (f : First (ready k) (first_try k.current k.tasks) ntask i) → f.round ≡ 7
    seventh {i} f = elim (dec_lt f.round 7) [
      | yes early ↦ absurd (
          ground (
            arith,
            f.can_run,
            f.slot,
            ap (λ n. is_runnable (ready k n).state) (try f.round),
            AllBelow-at 7 (λ l. is_runnable (ready k ((c + 17 + l) % ntask)).state ≡ false) f.round
                idle early,
          ))
      | no late ↦ elim (dec_lt 7 f.round) [
        | yes missed ↦
            let at : (first_try k.current k.tasks + 7) % ntask ≡ c = omega (arith, try 7) in
            absurd (
              ground
                (arith, own, f.none_before 7 missed, ap (λ n. is_runnable (ready k n).state) at))
        | no exact ↦ omega arith
      ]
    ]
