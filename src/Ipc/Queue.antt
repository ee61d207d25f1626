-- ===== src/Ipc/Queue.antt =====
-- The queue of senders, threaded through the tasks, as a list of slots.
use rvos.Common.{
  ℕ, zero, suc, ◌≤◌, ◌<◌, ◌≡◌, refl, sym, ap, ◌∙◌, ◌≢◌, inl, inr, Bool, true, false, ◌||◌, Option,
  none, some, List, [], ◌∷◌, ◌++◌, arith, ◌==◌, update, length, Bool-cases, Option-cases, subst,
  ==_refl, ==_iff, update_ne,
}
use rvos.Kernel.{Task, Tasks, ntask}
use rvos.Ipc.{link_last, enqueue_sender}

abbrev pub has : ℕ → List ℕ → Bool
has i [] = false
has i (x ∷ xs) = (x == i) || has i xs

-- From `head`, `send_next` leads through the distinct slots `xs` to null.
abbrev pub Chain : Tasks → Option ℕ → List ℕ → Type 0
Chain tasks head [] = head ≡ none
Chain tasks head (i ∷ xs) =
    (head ≡ some i) × (has i xs ≡ false) × Chain tasks (tasks i).send_next xs

pub Chain-frame :
    (tasks tasks' : Tasks) (head : Option ℕ) (xs : List ℕ)
    → ((i : ℕ) → has i xs ≡ true → (tasks' i).send_next ≡ (tasks i).send_next)
    → Chain tasks head xs
    → Chain tasks' head xs
Chain-frame tasks tasks' head [] same c = c
Chain-frame tasks tasks' head (i ∷ xs) same (e, once, c) = (
  e,
  once,
  rw (same i (ground (arith, ==_refl i)))
      (Chain-frame tasks tasks' (tasks i).send_next xs (λ j h. same j (ground arith)) c),
)

pub has-append : (i : ℕ) (xs ys : List ℕ) → has i (xs ++ ys) ≡ (has i xs || has i ys)
has-append i [] ys = refl
has-append i (x ∷ xs) ys = ground (arith, has-append i xs ys)

-- The walk from a task `x` whose successors are `xs` writes to those tasks only.
link_last-out :
    (fuel : ℕ) (tasks : Tasks) (x snd i : ℕ) (xs : List ℕ)
    → Chain tasks (tasks x).send_next xs
    → has i (x ∷ xs) ≡ false
    → link_last fuel tasks x snd i ≡ tasks i
unfolding link_last
link_last-out zero tasks x snd i xs c h = refl
link_last-out (suc fuel) tasks x snd i [] c h =
    rw (c, link_last) (update_ne tasks x _ i (λ d. ground (arith, ==_refl i)))
link_last-out (suc fuel) tasks x snd i (y ∷ xs) (e, once, c) h =
    rw (e, link_last) (link_last-out fuel tasks y snd i xs c (ground arith))

link_next :
    (fuel : ℕ) (tasks : Tasks) (x q snd : ℕ)
    → (tasks x).send_next ≡ some q
    → link_last (suc fuel) tasks x snd ≡ link_last fuel tasks q snd
unfolding link_last
link_next fuel tasks x q snd e = rw (e, link_last)

link_end :
    (fuel : ℕ) (tasks : Tasks) (x snd : ℕ)
    → (tasks x).send_next ≡ none
    → link_last (suc fuel) tasks x snd ≡ update tasks x (record (tasks x) { send_next = some snd })
unfolding link_last
link_end fuel tasks x snd e = rw (e, link_last)

link_last-Chain :
    (fuel : ℕ) (tasks : Tasks) (x snd : ℕ) (xs : List ℕ)
    → has x xs ≡ false
    → Chain tasks (tasks x).send_next xs
    → length xs < fuel
    → has snd (x ∷ xs) ≡ false
    → (tasks snd).send_next ≡ none
    → Chain (link_last fuel tasks x snd) (link_last fuel tasks x snd x).send_next (xs ++ (snd ∷ []))
link_last-Chain zero tasks x snd xs once c enough out last = absurd (omega arith)
link_last-Chain (suc fuel) tasks x snd [] once c enough out last =
    rw (link_end fuel tasks x snd c) (ground (arith, ==_refl x), refl, ground arith)
link_last-Chain (suc fuel) tasks x snd (y ∷ xs) once (e, once', c) enough out last =
    let there : Chain (link_last fuel tasks y snd) (link_last fuel tasks y snd y).send_next
        (xs ++ (snd ∷ [])) =
      link_last-Chain fuel tasks y snd xs once' c (omega arith) (ground arith) last in
    let kept : link_last fuel tasks y snd x ≡ tasks x =
      link_last-out fuel tasks y snd x xs c once in
    subst (λ (T : Tasks). Chain T (T x).send_next (y ∷ (xs ++ (snd ∷ []))))
      (sym (link_next fuel tasks x y snd e))
      (ap (λ (t : Task). t.send_next) kept ∙ e, rw has-append (ground arith), there)

-- Everything about a task but the link to the next sender.
abbrev pub SameButNext : Task → Task → Type 0
SameButNext t t' = t' ≡ record t { send_next = t'.send_next }

link_last-SameButNext :
    (fuel : ℕ) (tasks : Tasks) (x snd i : ℕ) → SameButNext (tasks i) (link_last fuel tasks x snd i)
unfolding link_last
link_last-SameButNext zero tasks x snd i = refl
link_last-SameButNext (suc fuel) tasks x snd i = elim (Option-cases (tasks x).send_next) [
  | inl n ↦
      rw (n, link_last)
        (elim (Bool-cases (x == i)) [ inl y ↦ rw (y, (==_iff x i).0 y) refl | inr z ↦ rw z refl ])
  | inr (q, n) ↦ rw (n, link_last) (link_last-SameButNext fuel tasks q snd i)
]

wait_sender-link_last :
    (fuel : ℕ) (tasks : Tasks) (x snd i : ℕ)
    → (link_last fuel tasks x snd i).wait_sender ≡ (tasks i).wait_sender
wait_sender-link_last fuel tasks x snd i =
    ap (λ (t : Task). t.wait_sender) (link_last-SameButNext fuel tasks x snd i)

prepared : Tasks → ℕ → Tasks
prepared tasks snd = update tasks snd (record (tasks snd) { send_next = none })

prepared-ne : (tasks : Tasks) (snd i : ℕ) → snd ≢ i → prepared tasks snd i ≡ tasks i
unfolding prepared
prepared-ne tasks snd i ne = update_ne tasks snd _ i ne

prepared-end : (tasks : Tasks) (snd : ℕ) → (prepared tasks snd snd).send_next ≡ none
unfolding prepared
prepared-end tasks snd = ground (arith, ==_refl snd)

enqueue_first :
    (tasks : Tasks) (recv snd : ℕ)
    → (prepared tasks snd recv).wait_sender ≡ none
    → enqueue_sender tasks recv snd
      ≡ update
          (prepared tasks snd)
          recv
          (record (prepared tasks snd recv) { wait_sender = some snd })
unfolding enqueue_sender prepared
enqueue_first tasks recv snd e = rw (e, enqueue_sender)

enqueue_later :
    (tasks : Tasks) (recv snd x : ℕ)
    → (prepared tasks snd recv).wait_sender ≡ some x
    → enqueue_sender tasks recv snd ≡ link_last ntask (prepared tasks snd) x snd
unfolding enqueue_sender prepared
enqueue_later tasks recv snd x e = rw (e, enqueue_sender)

prepared-Chain :
    (tasks : Tasks) (head : Option ℕ) (snd : ℕ) (xs : List ℕ)
    → has snd xs ≡ false
    → Chain tasks head xs
    → Chain (prepared tasks snd) head xs
prepared-Chain tasks head snd xs out c =
    Chain-frame tasks (prepared tasks snd) head xs
      (λ i h.
        ap (λ (t : Task). t.send_next)
          (prepared-ne tasks snd i (λ e. ground (arith, h, out, ap (λ j. has j xs) e))))
      c

-- `enqueue_sender` appends the sender to the queue of its receiver, where that queue has at most as
-- many entries as there are slots and the sender is not in it.
pub enqueue_sender-Chain :
    (tasks : Tasks) (recv snd : ℕ) (xs : List ℕ)
    → Chain tasks (tasks recv).wait_sender xs
    → length xs ≤ ntask
    → has snd xs ≡ false
    → recv ≢ snd
    → Chain
        (enqueue_sender tasks recv snd)
        (enqueue_sender tasks recv snd recv).wait_sender
        (xs ++ (snd ∷ []))
enqueue_sender-Chain tasks recv snd [] c short out apart =
    let head : (prepared tasks snd recv).wait_sender ≡ none =
      ap (λ (t : Task). t.wait_sender) (prepared-ne tasks snd recv (λ e. apart (sym e))) ∙ c in
    subst (λ (T : Tasks). Chain T (T recv).wait_sender (snd ∷ []))
      (sym (enqueue_first tasks recv snd head))
      (ground (arith, ==_refl recv), refl, ground (arith, prepared-end tasks snd, ==_iff recv snd))
enqueue_sender-Chain tasks recv snd (x ∷ xs) (e, once, c) short out apart =
    let head : (prepared tasks snd recv).wait_sender ≡ some x =
      ap (λ (t : Task). t.wait_sender) (prepared-ne tasks snd recv (λ e. apart (sym e))) ∙ e in
    let same : (prepared tasks snd x).send_next ≡ (tasks x).send_next =
      ap (λ (t : Task). t.send_next)
        (prepared-ne tasks snd x (λ d. ground (arith, out, ==_refl x, d))) in
    let rest : Chain (prepared tasks snd) (prepared tasks snd x).send_next xs =
      subst (λ o. Chain (prepared tasks snd) o xs) (sym same)
        (prepared-Chain tasks (tasks x).send_next snd xs (ground arith) c) in
    subst (λ (T : Tasks). Chain T (T recv).wait_sender (x ∷ (xs ++ (snd ∷ []))))
      (sym (enqueue_later tasks recv snd x head))
      (
        wait_sender-link_last ntask (prepared tasks snd) x snd recv ∙ head,
        rw has-append (ground arith),
        link_last-Chain ntask (prepared tasks snd) x snd xs once rest (omega arith) out
            (prepared-end tasks snd),
      )
