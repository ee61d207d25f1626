-- ===== src/Namespaces/Sweep.antt =====
-- The sweep of vfs_ns_gc: what it releases and what it keeps.
use rvos.Common.{
  ℕ, zero, suc, ◌+◌, ◌≤◌, ◌<◌, ◌≡◌, ◌≢◌, refl, ap, ◌∙◌, sym, false, ◌||◌, arith, ◌==◌,
  if◌then◌else◌, ==_iff, inl, inr, Bool-cases, AllBelow, AllBelow-intro, AllBelow-at, ◌↔◌,
}
use rvos.Kernel.{Kernel, Tasks, ntask}
use rvos.Namespaces.{gc_one, gc_loop, ns_gc, live, sees, nns}

tasks-gc_loop : (left i : ℕ) (k : Kernel) → (gc_loop left i k).tasks ≡ k.tasks
unfolding gc_loop
tasks-gc_loop zero i k = refl
tasks-gc_loop (suc left) i k = tasks-gc_loop left (i + 1) (gc_one i k) ∙ ground arith

pub tasks-ns_gc : (k : Kernel) → (ns_gc k).tasks ≡ k.tasks
unfolding ns_gc
tasks-ns_gc k = tasks-gc_loop 23 1 k

-- What the sweep makes of the pointer to a namespace.
abbrev swept : Tasks → ℕ → ℕ
swept tasks page = if (page == 0) || live ntask 0 tasks page then page else 0

gc_one-pool :
    (i j : ℕ) (k : Kernel)
    → (gc_one i k).ns_pool j ≡ (if i == j then swept k.tasks (k.ns_pool j) else k.ns_pool j)
gc_one-pool i j k = elim (Bool-cases (i == j)) [
  | inl e ↦ rw ((==_iff i j).0 e) (ground arith)
  | inr n ↦ ground arith
]

tasks-gc_one : (i : ℕ) (k : Kernel) → (gc_one i k).tasks ≡ k.tasks
tasks-gc_one i k = ground arith

pool_before : (left i j : ℕ) (k : Kernel) → j < i → (gc_loop left i k).ns_pool j ≡ k.ns_pool j
unfolding gc_loop
pool_before zero i j k h = refl
pool_before (suc left) i j k h =
    pool_before left (i + 1) j (gc_one i k) (omega arith) ∙ gc_one-pool i j k ∙ ground arith

pool_within :
    (left i j : ℕ) (k : Kernel)
    → i ≤ j
    → j < i + left
    → (gc_loop left i k).ns_pool j ≡ swept k.tasks (k.ns_pool j)
unfolding gc_loop
pool_within zero i j k low high = absurd (omega arith)
pool_within (suc left) i j k low high = elim (Bool-cases (i == j)) [
  | inl e ↦
      pool_before left (i + 1) j (gc_one i k) (ground arith) ∙ gc_one-pool i j k ∙ ground arith
  | inr n ↦
      pool_within left (i + 1) j (gc_one i k) (ground arith) (omega arith)
      ∙ rw (tasks-gc_one i k, gc_one-pool i j k, n) refl
]

unseen :
    (left i j : ℕ) (tasks : Tasks) (page : ℕ)
    → live left i tasks page ≡ false
    → i ≤ j
    → j < i + left
    → sees page (tasks j) ≡ false
unfolding live
unseen zero i j tasks page h low high = absurd (omega arith)
unseen (suc left) i j tasks page h low high = elim (Bool-cases (i == j)) [
  | inl e ↦ ap (λ n. sees page (tasks n)) (sym ((==_iff i j).0 e)) ∙ ground arith
  | inr n ↦ unseen left (i + 1) j tasks page (ground arith) (ground arith) (omega arith)
]

not_live :
    (left i : ℕ) (tasks : Tasks) (page : ℕ)
    → ((j : ℕ) → i ≤ j → j < i + left → sees page (tasks j) ≡ false)
    → live left i tasks page ≡ false
unfolding live
not_live zero i tasks page h = refl
not_live (suc left) i tasks page h =
    rw (h i (omega arith) (omega arith))
      (not_live left (i + 1) tasks page (λ j low high. h j (omega arith) (omega arith)))

-- The sweep lets a private namespace go exactly when no task, alive or under construction, sees it:
-- its entry of the pool is empty afterwards, where it was not before.
pub ns_gc-lets_go :
    (k : Kernel) (i : ℕ)
    → 0 < i
    → i < nns
    → k.ns_pool i ≢ 0
    → ((ns_gc k).ns_pool i ≡ 0) ↔ AllBelow ntask (λ t. sees (k.ns_pool i) (k.tasks t) ≡ false)
unfolding ns_gc
ns_gc-lets_go k i low high some_page =
    let page = k.ns_pool i in
    let result : (gc_loop 23 1 k).ns_pool i ≡ swept k.tasks page =
      pool_within 23 1 i k (omega arith) (omega arith) in
    (
      (λ gone.
          AllBelow-intro ntask (λ t. sees page (k.tasks t) ≡ false)
            (λ j below.
              unseen ntask 0 j k.tasks page (ground (arith, gone, result)) (omega arith) below)),
      (λ alone.
          result
          ∙ rw
              (not_live ntask 0 k.tasks page
                (λ j low high. AllBelow-at ntask (λ t. sees page (k.tasks t) ≡ false) j alone high))
              (ground arith)),
    )
