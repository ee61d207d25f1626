-- ===== src/Task/Ids.antt =====
-- Slots and ids: who gets a slot, and what an id names.
use rvos.Common.{
  ℕ, zero, suc, ◌+◌, ◌%◌, ◌^◌, ◌≤◌, ◌<◌, ◌≡◌, refl, ◌≢◌, ◌↔◌, inl, inr, true, false, none, some,
  arith, ◌==◌, if◌then◌else◌, update, Bool-cases, Option-cases, subst, ==_iff, AllBelow,
  AllBelow-intro, AllBelow-at,
}
use rvos.Kernel.{Tasks, ntask}
use rvos.Task.{is_free, make_id, find_free, fresh_task, alloc_slot, task_slot, task_by_id}

find_free-some :
    (left i s : ℕ) (tasks : Tasks)
    → find_free left i tasks ≡ some s
    → (i ≤ s)
      × (s < i + left)
      × (is_free (tasks s) ≡ true)
      × ((j : ℕ) → i ≤ j → j < s → is_free (tasks j) ≡ false)
unfolding find_free
find_free-some zero i s tasks e = absurd (ground arith)
find_free-some (suc left) i s tasks e = elim (Bool-cases (is_free (tasks i))) [
  | inl y ↦
      let same : i ≡ s = ground arith in
      (omega arith, omega arith, rw (← same) y, λ j low high. absurd (omega arith))
  | inr n ↦
      let (low, high, free, before) = find_free-some left (i + 1) s tasks (ground arith) in
      (
        omega arith,
        omega arith,
        free,
        λ j a b. elim (Bool-cases (i == j)) [
          | inl here ↦ subst (λ t. is_free (tasks t) ≡ false) ((==_iff i j).0 here) n
          | inr there ↦ before j (ground arith) b
        ],
      )
]

find_free-none :
    (left i j : ℕ) (tasks : Tasks)
    → find_free left i tasks ≡ none
    → i ≤ j
    → j < i + left
    → is_free (tasks j) ≡ false
unfolding find_free
find_free-none zero i j tasks e low high = absurd (omega arith)
find_free-none (suc left) i j tasks e low high = elim (Bool-cases (i == j)) [
  | inl here ↦
      let busy : is_free (tasks i) ≡ false = ground arith in
      subst (λ t. is_free (tasks t) ≡ false) ((==_iff i j).0 here) busy
  | inr there ↦ find_free-none left (i + 1) j tasks (ground arith) (ground arith) (omega arith)
]

-- `alloc_slot` hands out the first free slot, with nothing of its last task but the generation and
-- an id made of both, and touches no other slot.
alloc_slot-some :
    (tasks tasks' : Tasks) (i j : ℕ)
    → alloc_slot tasks ≡ some (i, tasks')
    → (i < ntask)
      × (is_free (tasks i) ≡ true)
      × AllBelow i (λ l. is_free (tasks l) ≡ false)
      × (tasks' j ≡ (if i == j then fresh_task i (tasks i).gen else tasks j))
unfolding alloc_slot
alloc_slot-some tasks tasks' i j e = elim (Option-cases (find_free ntask 0 tasks)) [
  | inl n ↦ absurd (ground arith)
  | inr (s, p) ↦
      let (low, high, free, before) = find_free-some ntask 0 s tasks p in
      let same : s ≡ i = ground arith in
      let shape : update tasks s (fresh_task s (tasks s).gen) ≡ tasks' = ground arith in
      (
        omega arith,
        subst (λ t. is_free (tasks t) ≡ true) same free,
        AllBelow-intro i _ (λ l h. before l (omega arith) (omega arith)),
        rw (← shape, ← same) refl,
      )
]

-- It fails exactly when all 24 slots are taken.
alloc_slot-none :
    (tasks : Tasks) → (alloc_slot tasks ≡ none) ↔ AllBelow ntask (λ j. is_free (tasks j) ≡ false)
unfolding alloc_slot
alloc_slot-none tasks = (
  λ e.
      AllBelow-intro ntask _
        (λ j h. find_free-none ntask 0 j tasks (ground arith) (omega arith) (omega arith)),
  λ full. elim (Option-cases (find_free ntask 0 tasks)) [
    | inl n ↦ rw (n, alloc_slot)
    | inr (s, p) ↦
        let (low, high, free, before) = find_free-some ntask 0 s tasks p in
        absurd (
          ground
            (arith, free, AllBelow-at ntask (λ j. is_free (tasks j) ≡ false) s full (omega arith)))
  ],
)

-- An id names a slot exactly when that slot is in the table, is taken, and carries that very id.
pub task_by_id-some :
    (tasks : Tasks) (id i : ℕ)
    → (task_by_id tasks id ≡ some i)
      ↔ ((i ≡ task_slot id) × (i < ntask) × (is_free (tasks i) ≡ false) × ((tasks i).id ≡ id))
unfolding task_by_id
task_by_id-some tasks id i = (
  λ e.
      let same : i ≡ task_slot id = ground arith in
      (same, ground arith, rw same (ground arith), rw same (ground arith)),
  λ (same, small, taken, own).
      let taken' : is_free (tasks (task_slot id)) ≡ false =
        subst (λ s. is_free (tasks s) ≡ false) same taken in
      let own' : (tasks (task_slot id)).id ≡ id = subst (λ s. (tasks s).id ≡ id) same own in
      ground arith,
)

-- The id of another life of the slot's task, within 2 ^ 24 lives, names nobody.
pub stale_id :
    (tasks : Tasks) (i old : ℕ)
    → i < ntask
    → (tasks i).id ≡ make_id i (tasks i).gen
    → old % 2 ^ 24 ≢ (tasks i).gen % 2 ^ 24
    → task_by_id tasks (make_id i old) ≡ none
stale_id tasks i old h named ne = elim (Option-cases (task_by_id tasks (make_id i old))) [
  | inl n ↦ n
  | inr (s, e) ↦
      let (same, small, taken, own) = (task_by_id-some tasks (make_id i old) s).0 e in
      let here : s ≡ i = omega arith in
      let own' : (tasks i).id ≡ make_id i old =
        subst (λ t. (tasks t).id ≡ make_id i old) here own in
      absurd (omega arith)
]
