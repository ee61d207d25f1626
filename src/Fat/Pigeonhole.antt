-- ===== src/Fat/Pigeonhole.antt =====
-- Lists of numbers below a bound in which no number stands twice are no longer than the bound.
use rvos.Common.{
  ℕ, zero, suc, ◌≤◌, ◌<◌, ◌≡◌, refl, Bool, false, ◌||◌, List, [], ◌∷◌, length, ◌==◌, if◌then◌else◌,
  arith, All, Bool-cases, inl, inr, ==_iff, subst,
}

abbrev pub on : ℕ → List ℕ → Bool
on c [] = false
on c (x ∷ xs) = (x == c) || on c xs

abbrev pub NoDup : List ℕ → Type 0
NoDup [] = Unit
NoDup (x ∷ xs) = (on x xs ≡ false) × NoDup xs

abbrev without : ℕ → List ℕ → List ℕ
without n [] = []
without n (x ∷ xs) = let rest = without n xs in if x == n then rest else x ∷ rest

on-without : (n c : ℕ) (xs : List ℕ) → on c xs ≡ false → on c (without n xs) ≡ false
on-without n c [] off = refl
on-without n c (x ∷ xs) off = ground (arith, on-without n c xs)

NoDup-without : (n : ℕ) (xs : List ℕ) → NoDup xs → NoDup (without n xs)
NoDup-without n [] h = tt
NoDup-without n (x ∷ xs) h = elim (Bool-cases (x == n)) [
  | inl y ↦ rw y (NoDup-without n xs h.1)
  | inr m ↦ rw m (on-without n x xs h.0, NoDup-without n xs h.1)
]

below-without : (n : ℕ) (xs : List ℕ) → All (λ x. x < suc n) xs → All (λ x. x < n) (without n xs)
below-without n [] h = tt
below-without n (x ∷ xs) h = elim (Bool-cases (x == n)) [
  | inl y ↦ rw y (below-without n xs h.1)
  | inr m ↦ let first : x < suc n = h.0 in rw m (ground arith, below-without n xs h.1)
]

length-without_off : (n : ℕ) (xs : List ℕ) → on n xs ≡ false → length (without n xs) ≡ length xs
length-without_off n [] off = refl
length-without_off n (x ∷ xs) off = ground (arith, length-without_off n xs)

length-without : (n : ℕ) (xs : List ℕ) → NoDup xs → length xs ≤ suc (length (without n xs))
length-without n [] h = omega arith
length-without n (x ∷ xs) h = elim (Bool-cases (x == n)) [
  | inl y ↦
      let off : on n xs ≡ false = subst (λ m. on m xs ≡ false) ((==_iff x n).0 y) h.0 in
      rw y (omega (arith, length-without_off n xs off))
  | inr m ↦ rw m (omega (arith, length-without n xs h.1))
]

pub length_bound : (n : ℕ) (xs : List ℕ) → NoDup xs → All (λ x. x < n) xs → length xs ≤ n
length_bound zero [] h b = omega arith
length_bound zero (x ∷ xs) h b = absurd (omega (arith, b.0))
length_bound (suc n) xs h b =
    let rest = length_bound n (without n xs) (NoDup-without n xs h) (below-without n xs b) in
    omega (arith, rest, length-without n xs h)
