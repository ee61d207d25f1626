-- ===== src/Malloc/Classes.antt =====
-- src/malloc.h: the sizes that small objects are rounded up to.
use rvos.Common.{
  ℕ, ◌+◌, ◌-◌, ◌*◌, ◌≤◌, ◌<◌, ◌≡◌, refl, Bool, true, ◌&&◌, ◌||◌, List, [], ◌∷◌, get_or, ltb, leb,
  ◌==◌, if◌then◌else◌, passes, passes_at, arith,
}

abbrev pub nclass : ℕ
nclass = 16

abbrev pub maxsmall : ℕ
maxsmall = 512

abbrev pub classes : List ℕ
classes =
    16 ∷ 32 ∷ 48 ∷ 64 ∷ 80 ∷ 96 ∷ 112 ∷ 128 ∷ 160 ∷ 192 ∷ 224 ∷ 256 ∷ 320 ∷ 384 ∷ 448 ∷ 512 ∷ []

abbrev pub class_size : ℕ → ℕ
class_size c = get_or classes c 0

-- `while (m__class[c] < n) c++`, from the class `c` on.
unfoldable pub class_from : List ℕ → ℕ → ℕ → ℕ
class_from [] c n = c
class_from (size ∷ sizes) c n =
    let rest = class_from sizes (c + 1) n in if ltb size n then rest else c

unfoldable pub class_of : ℕ → ℕ
class_of n = class_from classes 0 n

-- The class of a small size holds it, the class below does not, and above 112 bytes less than a
-- quarter of the size is lost.
fitting : ℕ → Bool
fitting n =
    let c = class_of n in
    (n == 0)
    || (ltb c nclass
        && leb n (class_size c)
        && ((c == 0) || ltb (class_size (c - 1)) n)
        && (leb n 112 || ltb (4 * (class_size c - n)) n))

fitting-512 : passes fitting 513 ≡ true
unfolding passes fitting class_of class_from
fitting-512 = refl

fitting-at : (n : ℕ) → n ≤ maxsmall → fitting n ≡ true
fitting-at n h = passes_at fitting 513 n (omega arith) fitting-512

read :
    (n c size below : ℕ)
    → ((n == 0)
        || (ltb c nclass
            && leb n size
            && ((c == 0) || ltb below n)
            && (leb n 112 || ltb (4 * (size - n)) n)))
      ≡ true
    → 0 < n
    → (c < nclass) × (n ≤ size) × (0 < c → below < n) × (112 < n → 4 * (size - n) < n)
read n c size below fits some_byte =
    (ground arith, ground arith, (λ h. ground arith), (λ h. ground arith))

-- A size of 1 to 512 bytes has a class that holds it, the class below it does not, and above 112
-- bytes less than a quarter of the size is lost by the rounding.
pub class_of-fits :
    (n : ℕ)
    → 0 < n
    → n ≤ maxsmall
    → (class_of n < nclass)
      × (n ≤ class_size (class_of n))
      × (0 < class_of n → class_size (class_of n - 1) < n)
      × (112 < n → 4 * (class_size (class_of n) - n) < n)
unfolding fitting
class_of-fits n some_byte small =
    read n (class_of n) (class_size (class_of n)) (class_size (class_of n - 1)) (fitting-at n small)
      some_byte
