-- ===== src/Vfs/Answers.antt =====
-- The abstract view of a namespace: what a name stands for, in order, and where a new entry of the
-- name goes.
use rvos.Common.{
  ℕ, zero, suc, ◌≡◌, refl, ap, ◌∙◌, ◌≢◌, inl, inr, false, none, some, List, [], ◌∷◌, ◌++◌, arith,
  ◌==◌, if◌then◌else◌, length, take, drop, append-nil, Bool-cases, Option-cases, sym,
}
use rvos.Text.{Str, streq}
use rvos.Text.Compare.{streq_refl, streq_eq}
use rvos.Vfs.{Mount, repl, before, after, remove_named, after_last, first_named, place, or_end}

-- The entries of a name, in the order in which they are tried.
unfoldable pub answers : Str → List Mount → List Mount
answers p [] = []
answers p (m ∷ ms) = if streq m.prefix p then m ∷ answers p ms else answers p ms

-- What the three flags promise; any other value appends.
abbrev pub joined : ℕ → Mount → List Mount → List Mount
joined flags m old =
    if flags == repl then m ∷ [] else if flags == before then m ∷ old else old ++ (m ∷ [])

streq_ne : (p q : Str) → p ≢ q → streq p q ≡ false
streq_ne p q ne = elim (Bool-cases (streq p q)) [ inl e ↦ absurd (ne (streq_eq p q e)) | inr e ↦ e ]

answers-append :
    (p : Str) (xs ys : List Mount) → answers p (xs ++ ys) ≡ answers p xs ++ answers p ys
unfolding answers
answers-append p [] ys = refl
answers-append p (m ∷ xs) ys = ground (arith, answers-append p xs ys)

pub take-append-drop : (n : ℕ) (xs : List Mount) → take n xs ++ drop n xs ≡ xs
take-append-drop zero xs = refl
take-append-drop (suc n) [] = refl
take-append-drop (suc n) (x ∷ xs) = rw (take-append-drop n xs)

answers-split :
    (p : Str) (i : ℕ) (ms : List Mount)
    → answers p (take i ms) ++ answers p (drop i ms) ≡ answers p ms
answers-split p i ms =
    sym (answers-append p (take i ms) (drop i ms)) ∙ ap (answers p) (take-append-drop i ms)

pub answers-remove_named : (p : Str) (ms : List Mount) → answers p (remove_named p ms) ≡ []
unfolding answers remove_named
answers-remove_named p [] = refl
answers-remove_named p (m ∷ ms) = ground (arith, answers-remove_named p ms)

pub answers-remove_named_ne :
    (p q : Str) (ms : List Mount) → q ≢ p → answers q (remove_named p ms) ≡ answers q ms
unfolding answers remove_named
answers-remove_named_ne p q [] ne = refl
answers-remove_named_ne p q (m ∷ ms) ne = elim (Bool-cases (streq m.prefix p)) [
  | inl e ↦
      let d : streq m.prefix q ≡ false =
        rw (streq_eq m.prefix p e) (streq_ne p q (λ h. ne (sym h))) in
      rw (e, d) (answers-remove_named_ne p q ms ne)
  | inr e ↦ ground (arith, answers-remove_named_ne p q ms ne)
]

-- Nothing of that name comes after the place of MAFTER.
after_last-none : (p : Str) (ms : List Mount) → after_last p ms ≡ none → answers p ms ≡ []
unfolding answers after_last
after_last-none p [] e = refl
after_last-none p (m ∷ ms) e = ground (arith, after_last-none p ms)

after_last-some :
    (p : Str) (ms : List Mount) (i : ℕ) → after_last p ms ≡ some i → answers p (drop i ms) ≡ []
unfolding answers after_last
after_last-some p [] i e = ground arith
after_last-some p (m ∷ ms) i e = elim (Option-cases (after_last p ms)) [
  | inl n ↦ let d : i ≡ 1 = ground arith in rw d (after_last-none p ms n)
  | inr (j, s) ↦ let d : i ≡ suc j = ground arith in rw d (after_last-some p ms j s)
]

-- Nothing of that name comes before the place of MBEFORE.
first_named-none : (p : Str) (ms : List Mount) → first_named p ms ≡ none → answers p ms ≡ []
unfolding answers first_named
first_named-none p [] e = refl
first_named-none p (m ∷ ms) e = ground (arith, first_named-none p ms)

first_named-some :
    (p : Str) (ms : List Mount) (i : ℕ) → first_named p ms ≡ some i → answers p (take i ms) ≡ []
unfolding answers first_named
first_named-some p [] i e = ground arith
first_named-some p (m ∷ ms) i e = elim (Bool-cases (streq m.prefix p)) [
  | inl h ↦ let d : i ≡ 0 = ground arith in rw d refl
  | inr h ↦ elim (Option-cases (first_named p ms)) [
    | inl n ↦ absurd (ground arith)
    | inr (j, s) ↦ let d : i ≡ suc j = ground arith in rw (d, h) (first_named-some p ms j s)
  ]
]

take-length {ℓ} : {A : Type ℓ} (xs : List A) → take (length xs) xs ≡ xs
take-length [] = refl
take-length (x ∷ xs) = ap (λ l. x ∷ l) (take-length xs)

drop-length {ℓ} : {A : Type ℓ} (xs : List A) → drop (length xs) xs ≡ []
drop-length [] = refl
drop-length (x ∷ xs) = drop-length xs

answers-drop_all : (p : Str) (ms : List Mount) → answers p (drop (length ms) ms) ≡ []
unfolding answers
answers-drop_all p ms = ap (answers p) (drop-length ms)

after_last-drop :
    (p : Str) (ms : List Mount) → answers p (drop (or_end (after_last p ms) (length ms)) ms) ≡ []
after_last-drop p ms = elim (Option-cases (after_last p ms)) [
  | inl n ↦ rw n (answers-drop_all p ms)
  | inr (j, e) ↦ rw e (after_last-some p ms j e)
]

first_named-take :
    (p : Str) (ms : List Mount) → answers p (take (or_end (first_named p ms) (length ms)) ms) ≡ []
first_named-take p ms = elim (Option-cases (first_named p ms)) [
  | inl n ↦ rw (n, take-length ms) (first_named-none p ms n)
  | inr (j, e) ↦ rw e (first_named-some p ms j e)
]

answers-hole :
    (m : Mount) (xs ys : List Mount)
    → answers m.prefix (xs ++ (m ∷ ys)) ≡ answers m.prefix xs ++ (m ∷ answers m.prefix ys)
unfolding answers
answers-hole m xs ys = rw (answers-append m.prefix xs (m ∷ ys), streq_refl m.prefix)

pub answers-hole_ne :
    (q : Str) (m : Mount) (xs ys : List Mount)
    → q ≢ m.prefix
    → answers q (xs ++ (m ∷ ys)) ≡ answers q (xs ++ ys)
unfolding answers
answers-hole_ne q m xs ys ne =
    rw (answers-append q xs (m ∷ ys), answers-append q xs ys, streq_ne m.prefix q (λ e. ne (sym e)))

-- Where no entry of the name follows, the new one is tried last.
joins_last :
    (m : Mount) (i : ℕ) (ms : List Mount)
    → answers m.prefix (drop i ms) ≡ []
    → answers m.prefix (take i ms ++ (m ∷ drop i ms)) ≡ answers m.prefix ms ++ (m ∷ [])
joins_last m i ms e =
    let whole : answers m.prefix (take i ms) ≡ answers m.prefix ms =
      sym (append-nil _) ∙ rw (← e) (answers-split m.prefix i ms) in
    rw (answers-hole m (take i ms) (drop i ms), e, whole)

-- Where no entry of the name stands before, the new one is tried first.
joins_first :
    (m : Mount) (i : ℕ) (ms : List Mount)
    → answers m.prefix (take i ms) ≡ []
    → answers m.prefix (take i ms ++ (m ∷ drop i ms)) ≡ m ∷ answers m.prefix ms
joins_first m i ms e =
    let whole : answers m.prefix (drop i ms) ≡ answers m.prefix ms =
      rw (← answers-split m.prefix i ms, e) in
    rw (answers-hole m (take i ms) (drop i ms), e, whole)

-- An entry put in the hole joins the others as its flags say; MREPL finds none of them left.
pub answers-place :
    (flags : ℕ) (m : Mount) (ms : List Mount)
    → (flags ≡ repl → answers m.prefix ms ≡ [])
    → answers m.prefix
        (take (place m.prefix flags ms) ms ++ (m ∷ drop (place m.prefix flags ms) ms))
      ≡ joined flags m (answers m.prefix ms)
unfolding place
answers-place flags m ms cleared = elim (Bool-cases (flags == after)) [
  | inl a ↦
      let e : flags ≡ 2 = ground arith in rw e (joins_last m _ ms (after_last-drop m.prefix ms))
  | inr na ↦ elim (Bool-cases (flags == before)) [
    | inl b ↦
        let e : flags ≡ 1 = ground arith in rw e (joins_first m _ ms (first_named-take m.prefix ms))
    | inr nb ↦
        rw (na, nb)
          (ground (arith, joins_last m (length ms) ms (answers-drop_all m.prefix ms), cleared))
  ]
]
