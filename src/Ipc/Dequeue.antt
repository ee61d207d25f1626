-- ===== src/Ipc/Dequeue.antt =====
-- Taking a sender out of a queue: the first that the receive accepts, from any place.
use rvos.Common.{
  ℕ, zero, suc, ◌≤◌, ◌<◌, ◌≡◌, refl, sym, ap, ◌∙◌, ◌≢◌, Bool, true, false, Option, none, some, List,
  [], ◌∷◌, ◌++◌, arith, ◌==◌, if◌then◌else◌, length, subst, ==_refl, ==_iff, All,
}
use rvos.Kernel.{Tasks, ntask}
use rvos.Ipc.{unlink, accepts, dequeue_loop, dequeue_sender}
use rvos.Ipc.Queue.{has, Chain, Chain-frame, has-append}

abbrev last_or : Option ℕ → List ℕ → Option ℕ
last_or prev [] = prev
last_or prev (b ∷ bs) = last_or (some b) bs

-- Nobody in the list is one that the receive accepts.
abbrev pub Unwanted : Tasks → Bool → ℕ → List ℕ → Type 0
Unwanted tasks closed want = All λ i. accepts closed want (tasks i) ≡ false

dequeue_loop-some :
    (f : ℕ) (tasks : Tasks) (recv : ℕ) (closed : Bool) (want : ℕ) (prev cur : Option ℕ) (s : ℕ)
    (front back : List ℕ)
    → Chain tasks cur (front ++ (s ∷ back))
    → length front < f
    → Unwanted tasks closed want front
    → accepts closed want (tasks s) ≡ true
    → dequeue_loop f tasks recv closed want prev cur
      ≡ (some s, unlink tasks recv (last_or prev front) s)
unfolding dequeue_loop
dequeue_loop-some zero tasks recv closed want prev cur s front back c enough skip take =
    absurd (omega arith)
dequeue_loop-some (suc f) tasks recv closed want prev cur s [] back (e, once, c) enough skip take =
    rw (e, dequeue_loop, take)
dequeue_loop-some (suc f) tasks recv closed want prev cur s (b ∷ bs) back (e, once, c) enough
      (no_b, skip) take =
    rw (e, dequeue_loop, no_b)
      (dequeue_loop-some f tasks recv closed want (some b) (tasks b).send_next s bs back c
        (omega arith) skip take)

dequeue_loop-none :
    (f : ℕ) (tasks : Tasks) (recv : ℕ) (closed : Bool) (want : ℕ) (prev cur : Option ℕ)
    (xs : List ℕ)
    → Chain tasks cur xs
    → Unwanted tasks closed want xs
    → dequeue_loop f tasks recv closed want prev cur ≡ (none, tasks)
unfolding dequeue_loop
dequeue_loop-none zero tasks recv closed want prev cur xs c skip = refl
dequeue_loop-none (suc f) tasks recv closed want prev cur [] c skip = rw c
dequeue_loop-none (suc f) tasks recv closed want prev cur (x ∷ xs) (e, once, c) (no_x, skip) =
    rw (e, dequeue_loop, no_x)
      (dequeue_loop-none f tasks recv closed want (some x) (tasks x).send_next xs c skip)

unlink_next :
    (tasks : Tasks) (recv p s i : ℕ)
    → (unlink tasks recv (some p) s i).send_next
      ≡ (if s == i then none else if p == i then (tasks s).send_next else (tasks i).send_next)
unlink_next tasks recv p s i = ground arith

unlink_first :
    (tasks : Tasks) (recv s i : ℕ)
    → (unlink tasks recv none s i).send_next ≡ (if s == i then none else (tasks i).send_next)
unlink_first tasks recv s i = ground (arith, ==_iff recv i, ==_iff recv s)

-- A member differs from what is no member.
has_ne : (xs : List ℕ) (i j : ℕ) → has i xs ≡ true → has j xs ≡ false → j ≢ i
has_ne xs i j h n e = ground (arith, h, n, ap (λ k. has k xs) e)

last_or-has : (b p : ℕ) (bs : List ℕ) → last_or (some b) bs ≡ some p → has p (b ∷ bs) ≡ true
last_or-has b p [] l = ground arith
last_or-has b p (d ∷ bs) l = ground (arith, last_or-has d p bs l)

-- Unlinking `s` behind `p` turns the queue ... p, s, back into ... p, back.
skip_over :
    (tasks tasks' : Tasks) (head : Option ℕ) (b s : ℕ) (bs back : List ℕ) (p : ℕ)
    → last_or (some b) bs ≡ some p
    → ((i : ℕ)
        → (tasks' i).send_next
          ≡ (if s == i then none else if p == i then (tasks s).send_next else (tasks i).send_next))
    → Chain tasks head (b ∷ (bs ++ (s ∷ back)))
    → Chain tasks' head (b ∷ (bs ++ back))
skip_over tasks tasks' head b s [] back p l links (e, once, (e', once', c)) =
    let same : b ≡ p = ground arith in
    let new : (tasks' b).send_next ≡ (tasks s).send_next =
      links b ∙ ground (arith, once, ==_iff p b) in
    let p_out : has p back ≡ false = ap (λ j. has j back) (sym same) ∙ ground (arith, once) in
    (
      e,
      ground (arith, once),
      subst (λ o. Chain tasks' o back) (sym new)
          (Chain-frame tasks tasks' (tasks s).send_next back
            (λ i h. links i ∙ ground (arith, has_ne back i s h once', has_ne back i p h p_out)) c),
    )
skip_over tasks tasks' head b s (d ∷ bs) back p l links (e, once, c) =
    let rest : has b (d ∷ (bs ++ (s ∷ back))) ≡ false = once in
    let b_ne_s : s ≢ b = λ h. ground (arith, rest, has-append b (d ∷ bs) (s ∷ back), ==_iff s b) in
    let b_ne_p : p ≢ b = λ h. ground (
      arith,
      rest,
      has-append b (d ∷ bs) (s ∷ back),
      last_or-has d p bs l,
      ap (λ j. has j (d ∷ bs)) h,
    ) in
    let same : (tasks' b).send_next ≡ (tasks b).send_next =
      links b ∙ ground (arith, b_ne_s, b_ne_p) in
    (
      e,
      ground (arith, rest, has-append b (d ∷ bs) (s ∷ back), has-append b (d ∷ bs) back),
      subst (λ o. Chain tasks' o (d ∷ (bs ++ back))) (sym same)
          (skip_over tasks tasks' (tasks b).send_next d s bs back p l links c),
    )

last_or-some : (b : ℕ) (bs : List ℕ) → (p : ℕ) × (last_or (some b) bs ≡ some p)
last_or-some b [] = (b, refl)
last_or-some b (d ∷ bs) = last_or-some d bs

unlink-Chain :
    (tasks : Tasks) (recv s : ℕ) (front back : List ℕ)
    → Chain tasks (tasks recv).wait_sender (front ++ (s ∷ back))
    → let tasks' = unlink tasks recv (last_or none front) s in
      Chain tasks' (tasks' recv).wait_sender (front ++ back)
unlink-Chain tasks recv s [] back (e, once, c) =
    let head : (unlink tasks recv none s recv).wait_sender ≡ (tasks s).send_next =
      ground (arith, ==_refl recv, ==_iff s recv) in
    subst (λ o. Chain (unlink tasks recv none s) o back) (sym head)
      (Chain-frame tasks (unlink tasks recv none s) (tasks s).send_next back
        (λ i h. unlink_first tasks recv s i ∙ ground (arith, has_ne back i s h once)) c)
unlink-Chain tasks recv s (b ∷ bs) back c =
    let (p, l) = last_or-some b bs in
    let tasks' = unlink tasks recv (some p) s in
    let head : (tasks' recv).wait_sender ≡ (tasks recv).wait_sender =
      ground (arith, ==_iff s recv, ==_iff p recv, ==_iff p s) in
    let kept : Chain tasks' (tasks' recv).wait_sender (b ∷ (bs ++ back)) =
      subst (λ o. Chain tasks' o (b ∷ (bs ++ back))) (sym head)
        (skip_over tasks tasks' (tasks recv).wait_sender b s bs back p l
          (unlink_next tasks recv p s) c) in
    subst
      (λ o.
        Chain (unlink tasks recv o s) (unlink tasks recv o s recv).wait_sender (b ∷ (bs ++ back)))
      (sym l) kept

-- `dequeue_sender` takes the first sender that the receive accepts, with at most as many before it
-- as there are slots, leaves the others queued in their order, and clears the link of the one taken.
pub dequeue_sender-Chain :
    (tasks : Tasks) (recv : ℕ) (closed : Bool) (want s : ℕ) (front back : List ℕ)
    → Chain tasks (tasks recv).wait_sender (front ++ (s ∷ back))
    → length front ≤ ntask
    → Unwanted tasks closed want front
    → accepts closed want (tasks s) ≡ true
    → let (found, tasks') = dequeue_sender tasks recv closed want in
      (found ≡ some s)
      × Chain tasks' (tasks' recv).wait_sender (front ++ back)
      × ((tasks' s).send_next ≡ none)
unfolding dequeue_sender
dequeue_sender-Chain tasks recv closed want s front back c short skip take =
    rw
      (dequeue_loop-some (suc ntask) tasks recv closed want none (tasks recv).wait_sender s front
        back c (omega arith) skip take)
      (refl, unlink-Chain tasks recv s front back c, ground (arith, ==_refl s))

-- With nobody acceptable in the queue, nothing is taken and nothing changes.
pub dequeue_sender-none :
    (tasks : Tasks) (recv : ℕ) (closed : Bool) (want : ℕ) (xs : List ℕ)
    → Chain tasks (tasks recv).wait_sender xs
    → Unwanted tasks closed want xs
    → dequeue_sender tasks recv closed want ≡ (none, tasks)
unfolding dequeue_sender
dequeue_sender-none tasks recv closed want xs c skip =
    dequeue_loop-none (suc ntask) tasks recv closed want none (tasks recv).wait_sender xs c skip
