-- ===== src/Vfs/Match.antt =====
-- Which entry answers for a path: the longest name that matches, and its n-th answer.
use rvos.Common.{
  ℕ, ◌+◌, ◌≡◌, refl, ap, ◌∙◌, ◌≢◌, ◌↔◌, ◌⊎◌, inl, inr, true, List, [], ◌∷◌, ◌++◌, arith, ◌==◌,
  length, take, drop, length-append, Bool-cases, sym, drop-append, append_assoc, take_all,
}
use rvos.Text.{Str, str_has_prefix}
use rvos.Text.Compare.{has_prefix_split, has_prefix_append}
use rvos.Vfs.{prefix_matches, without_slash, ends_slash, boundary, slash}

-- The name covers the path: it ends at a component of the path, or it is a directory written with
-- its slash and the path is the same directory without.
pub data Covers (path : Str) (p : Str) : Type 0 where
  below :
      (rest : Str)
      → p ≢ []
      → path ≡ p ++ rest
      → (ends_slash p ≡ true) ⊎ (boundary rest ≡ true)
      → Covers path p
  itself : p ≡ path ++ (slash ∷ []) → Covers path p

one_more : (r : Str) → length r ≡ 1 → (c : ℕ) × (r ≡ c ∷ [])
one_more [] e = absurd (omega arith)
one_more (c ∷ []) e = (c, refl)
one_more (c ∷ d ∷ r) e = absurd (omega arith)

pub ends_slash-append : (s : Str) (c : ℕ) → ends_slash (s ++ (c ∷ [])) ≡ (c == slash)
unfolding ends_slash
ends_slash-append [] c = refl
ends_slash-append (d ∷ []) c = refl
ends_slash-append (d ∷ e ∷ s) c = ends_slash-append (e ∷ s) c

without_slash-eq :
    (path p : Str) → length p ≢ 0 → without_slash path p ≡ true → p ≡ path ++ (slash ∷ [])
unfolding without_slash
without_slash-eq path p ne h =
    let (r, e) = has_prefix_split p path (ground arith) in
    let (c, e') = one_more r (ground (arith, ap length e, length-append path r)) in
    let whole : p ≡ path ++ (c ∷ []) = e ∙ ap (λ t. path ++ t) e' in
    let last : (c == slash) ≡ true = sym (ends_slash-append path c) ∙ rw whole at (first h) in
    rw whole (ground arith)
  where
    first : without_slash path p ≡ true → ends_slash p ≡ true
    first h = ground arith

nonempty : (p : Str) → p ≢ [] → length p ≢ 0
nonempty [] ne h = ne refl
nonempty (c ∷ p) ne h = omega arith

take_zero {ℓ} : {A : Type ℓ} (xs : List A) → take 0 xs ≡ []
take_zero xs = refl

matches-Covers : (path p : Str) → prefix_matches path p ≡ true → Covers path p
unfolding prefix_matches
matches-Covers path p h = elim (Bool-cases (without_slash path p)) [
  | inl d ↦ itself (without_slash-eq path p (ground arith) d)
  | inr nd ↦
      let (rest, e) = has_prefix_split path p (ground arith) in
      let tail : drop (length p) path ≡ rest = rw e (drop-append p rest) in
      below rest (λ z. ground (arith, ap length z)) e (ground (arith, tail))
]

Covers-matches : (path p : Str) → Covers path p → prefix_matches path p ≡ true
unfolding prefix_matches
Covers-matches path p (below rest ne e b) =
    let len : length p ≢ 0 = nonempty p ne in
    let tail : drop (length p) path ≡ rest = rw e (drop-append p rest) in
    let start : str_has_prefix path p ≡ true = rw e (has_prefix_append p rest) in
    ground (arith, tail)
Covers-matches path p (itself e) =
    let len : length p ≡ length path + 1 =
      omega (arith, ap length e, length-append path (slash ∷ [])) in
    let start : str_has_prefix p path ≡ true = rw e (has_prefix_append path (slash ∷ [])) in
    let last : ends_slash p ≡ true = rw e (ends_slash-append path slash) in
    let whole : without_slash path p ≡ true = unfold without_slash in ground arith in ground arith

-- A name matches a path exactly when the path goes on at a component boundary after it, or the
-- name is the path with a slash.
pub prefix_matches-Covers : (path p : Str) → (prefix_matches path p ≡ true) ↔ Covers path p
prefix_matches-Covers path p = (matches-Covers path p, Covers-matches path p)

take-append {ℓ} : {A : Type ℓ} (xs ys : List A) → take (length xs) (xs ++ ys) ≡ xs
take-append [] ys = take_zero ys
take-append (x ∷ xs) ys = ap (λ l. x ∷ l) (take-append xs ys)

-- The path and the length of a name that matches it determine the name.
Covers-take : (path p : Str) → Covers path p → take (length p) (path ++ (slash ∷ [])) ≡ p
Covers-take path p (below rest ne e b) =
    rw (e, append_assoc p rest (slash ∷ [])) (take-append p (rest ++ (slash ∷ [])))
Covers-take path p (itself e) = rw (← e) (take_all (length p) p (omega arith))

pub matches_unique :
    (path p q : Str)
    → prefix_matches path p ≡ true
    → prefix_matches path q ≡ true
    → length p ≡ length q
    → p ≡ q
matches_unique path p q hp hq e =
    sym (Covers-take path p (matches-Covers path p hp))
    ∙ ap (λ n. take n (path ++ (slash ∷ []))) e
    ∙ Covers-take path q (matches-Covers path q hq)
