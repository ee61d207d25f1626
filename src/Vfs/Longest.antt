-- ===== src/Vfs/Longest.antt =====
-- nth_match: the longest name wins, and its entries are a union in table order.
use rvos.Common.{
  ℕ, zero, suc, ◌+◌, ◌≤◌, ◌≡◌, refl, ap, ◌∙◌, ◌≢◌, ◌↔◌, ◌⊎◌, inl, inr, Bool, true, false, none,
  some, List, [], ◌∷◌, arith, ◌==◌, ◌&&◌, ltb, if◌then◌else◌, length, Bool-cases, Option-cases, sym,
  subst, All, get_elem?,
}
use rvos.Text.{Str, streq}
use rvos.Text.Compare.{streq_refl, streq_eq}
use rvos.Vfs.{Mount, prefix_matches, longest, nth_of, nth_match}
use rvos.Vfs.Match.{matches_unique}
use rvos.Vfs.Answers.{answers}

module _ (path : Str) where
  abbrev Within : ℕ → List Mount → Type 0
  Within b = All λ m. prefix_matches path m.prefix ≡ true → length m.prefix ≤ b

  abbrev Silent : List Mount → Type 0
  Silent = All λ m. prefix_matches path m.prefix ≡ false

  abbrev hit : ℕ → Mount → Bool
  hit b m = prefix_matches path m.prefix && (length m.prefix == b)

  hits : ℕ → List Mount → List Mount
  hits b [] = []
  hits b (m ∷ ms) = if hit b m then m ∷ hits b ms else hits b ms

  -- A best length so far only grows, and bounds what was read.
  longest-some :
      (ms : List Mount) (a b : ℕ) → longest path ms (some a) ≡ some b → (a ≤ b) × Within b ms
  unfolding longest
  longest-some [] a b e = (ground arith, tt)
  longest-some (m ∷ ms) a b e = elim (Bool-cases (prefix_matches path m.prefix)) [
    | inl y ↦ elim (Bool-cases (ltb a (length m.prefix))) [
      | inl longer ↦
          let r : (length m.prefix ≤ b) × Within b ms =
            longest-some ms (length m.prefix) b (ground arith) in
          (ground arith, (λ _. r.0, r.1))
      | inr shorter ↦
          let r : (a ≤ b) × Within b ms = longest-some ms a b (ground arith) in
          (r.0, (λ _. ground arith, r.1))
    ]
    | inr n ↦
        let r : (a ≤ b) × Within b ms = longest-some ms a b (ground arith) in
        (r.0, (λ y. ground arith, r.1))
  ]

  longest-start : (ms : List Mount) (b : ℕ) → longest path ms none ≡ some b → Within b ms
  unfolding longest
  longest-start [] b e = tt
  longest-start (m ∷ ms) b e = elim (Bool-cases (prefix_matches path m.prefix)) [
    | inl y ↦
        let r : (length m.prefix ≤ b) × Within b ms =
          longest-some ms (length m.prefix) b (ground arith) in
        (λ _. r.0, r.1)
    | inr n ↦ (λ y. ground arith, longest-start ms b (ground arith))
  ]

  longest-ne-none : (ms : List Mount) (a : ℕ) → longest path ms (some a) ≢ none
  unfolding longest
  longest-ne-none [] a e = cc
  longest-ne-none (m ∷ ms) a e =
      ground (arith, longest-ne-none ms a, longest-ne-none ms (length m.prefix))

  longest-none : (ms : List Mount) → longest path ms none ≡ none → Silent ms
  unfolding longest
  longest-none [] e = tt
  longest-none (m ∷ ms) e = ground (arith, longest-none ms, longest-ne-none ms (length m.prefix))

  nth_of-hits :
      (b : ℕ) (ms : List Mount) (k j nth : ℕ)
      → nth ≡ k + j
      → nth_of path b ms k nth ≡ get_elem? (hits b ms) j
  unfolding nth_of hits
  nth_of-hits b [] k j nth e = refl
  nth_of-hits b (m ∷ ms) k zero nth e = ground (arith, nth_of-hits b ms k 0 nth)
  nth_of-hits b (m ∷ ms) k (suc j) nth e =
      ground (arith, nth_of-hits b ms (k + 1) j nth, nth_of-hits b ms k (suc j) nth)

  differs :
      (p : Str) (m : Mount)
      → prefix_matches path p ≡ true
      → hit (length p) m ≡ false
      → streq m.prefix p ≡ false
  differs p m h n = elim (Bool-cases (streq m.prefix p)) [
    | inl y ↦
        let e : m.prefix ≡ p = streq_eq m.prefix p y in
        absurd (ground (arith, ap length e, ap (prefix_matches path) e))
    | inr o ↦ o
  ]

  -- Among entries that match, the same length is the same name.
  hits-answers :
      (p : Str) (ms : List Mount) → prefix_matches path p ≡ true → hits (length p) ms ≡ answers p ms
  unfolding hits answers
  hits-answers p [] h = refl
  hits-answers p (m ∷ ms) h = elim (Bool-cases (hit (length p) m)) [
    | inl y ↦
        let e : m.prefix ≡ p = matches_unique path m.prefix p (ground arith) h (ground arith) in
        let same : streq m.prefix p ≡ true = rw e (streq_refl p) in
        rw (y, same, hits-answers p ms h)
    | inr n ↦
        let other : streq m.prefix p ≡ false = differs p m h n in rw (n, other, hits-answers p ms h)
  ]

  hits-some :
      (b : ℕ) (ms : List Mount) (j : ℕ) (m : Mount)
      → get_elem? (hits b ms) j ≡ some m
      → hit b m ≡ true
  unfolding hits
  hits-some b [] j m e = ground arith
  hits-some b (x ∷ ms) zero m e = elim (Bool-cases (hit b x)) [
    | inl y ↦ let same : x ≡ m = ground arith in rw (← same) y
    | inr n ↦ hits-some b ms zero m (ground arith)
  ]
  hits-some b (x ∷ ms) (suc j) m e = elim (Bool-cases (hit b x)) [
    | inl y ↦ hits-some b ms j m (ground arith)
    | inr n ↦ hits-some b ms (suc j) m (ground arith)
  ]

  nth_match-hits :
      (ms : List Mount) (b n : ℕ)
      → longest path ms none ≡ some b
      → nth_match ms path n ≡ get_elem? (hits b ms) n
  unfolding nth_match
  nth_match-hits ms b n e = rw (e, nth_match) (nth_of-hits b ms 0 n n (omega arith))

  nth_match-nobody :
      (ms : List Mount) (n : ℕ) → longest path ms none ≡ none → nth_match ms path n ≡ none
  unfolding nth_match
  nth_match-nobody ms n e = rw (e, nth_match)

  some-longest-hits :
      (ms : List Mount) (a b : ℕ) → longest path ms (some a) ≡ some b → (a ≡ b) ⊎ (hits b ms ≢ [])
  unfolding longest hits
  some-longest-hits [] a b e = inl (ground arith)
  some-longest-hits (m ∷ ms) a b e = elim (Bool-cases (prefix_matches path m.prefix)) [
    | inl y ↦ elim (Bool-cases (ltb a (length m.prefix))) [
      | inl longer ↦ inr (λ h. ground (arith, some-longest-hits ms (length m.prefix) b))
      | inr shorter ↦ elim (some-longest-hits ms a b (ground arith)) [
        | inl same ↦ inl same
        | inr more ↦ inr (λ h. ground arith)
      ]
    ]
    | inr n ↦ elim (some-longest-hits ms a b (ground arith)) [
      | inl same ↦ inl same
      | inr more ↦ inr (λ h. more (ground arith))
    ]
  ]

  longest-hits : (ms : List Mount) (b : ℕ) → longest path ms none ≡ some b → hits b ms ≢ []
  unfolding longest hits
  longest-hits [] b e h = ground arith
  longest-hits (m ∷ ms) b e h = elim (Bool-cases (prefix_matches path m.prefix)) [
    | inl y ↦ ground (arith, some-longest-hits ms (length m.prefix) b)
    | inr n ↦ longest-hits ms b (ground arith) (ground arith)
  ]

  Silent-longest : (ms : List Mount) → Silent ms → longest path ms none ≡ none
  unfolding longest
  Silent-longest [] q = refl
  Silent-longest (m ∷ ms) q = ground (arith, Silent-longest ms)

  first-of-hits : (xs : List Mount) → xs ≢ [] → get_elem? xs 0 ≢ none
  first-of-hits [] ne e = ne refl
  first-of-hits (x ∷ xs) ne e = cc

  some_ne_none : {m : Mount} → some m ≢ none
  some_ne_none e = cc

  -- What nth_match picks matches the path, and no entry of the table that matches is longer.
  pub nth_match-longest :
      (ms : List Mount) (n : ℕ) (m : Mount)
      → nth_match ms path n ≡ some m
      → (prefix_matches path m.prefix ≡ true)
        × All (λ m'. prefix_matches path m'.prefix ≡ true → length m'.prefix ≤ length m.prefix) ms
  nth_match-longest ms n m e = elim (Option-cases (longest path ms none)) [
    | inl z ↦ absurd (some_ne_none (sym e ∙ nth_match-nobody ms n z))
    | inr (b, l) ↦
        let h : hit b m ≡ true = hits-some b ms n m (sym (nth_match-hits ms b n l) ∙ e) in
        let same : b ≡ length m.prefix = ground arith in
        (ground arith, subst (λ k. Within k ms) same (longest-start ms b l))
  ]

  -- Once a name has answered, its n-th answer for the path is the n-th entry of that very name, in
  -- table order: what answers for a path is exactly the union of the longest name that matches.
  pub nth_match-answers :
      (ms : List Mount) (m : Mount) (n : ℕ)
      → nth_match ms path 0 ≡ some m
      → nth_match ms path n ≡ get_elem? (answers m.prefix ms) n
  nth_match-answers ms m n e = elim (Option-cases (longest path ms none)) [
    | inl z ↦ absurd (some_ne_none (sym e ∙ nth_match-nobody ms 0 z))
    | inr (b, l) ↦
        let h : hit b m ≡ true = hits-some b ms 0 m (sym (nth_match-hits ms b 0 l) ∙ e) in
        let same : length m.prefix ≡ b = ground arith in
        nth_match-hits ms b n l
        ∙ ap (λ k. get_elem? (hits k ms) n) (sym same)
        ∙ ap (λ l. get_elem? l n) (hits-answers m.prefix ms (ground arith))
  ]

  -- Nobody answers exactly when no name in the table matches.
  pub nth_match-none :
      (ms : List Mount)
      → (nth_match ms path 0 ≡ none) ↔ All (λ m. prefix_matches path m.prefix ≡ false) ms
  nth_match-none ms = (
    λ e. elim (Option-cases (longest path ms none)) [
      | inl z ↦ longest-none ms z
      | inr (b, l) ↦
          absurd
            (first-of-hits (hits b ms) (longest-hits ms b l) (sym (nth_match-hits ms b 0 l) ∙ e))
    ],
    λ q. nth_match-nobody ms 0 (Silent-longest ms q),
  )
