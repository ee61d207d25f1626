-- ===== src/Fat/Components.antt =====
-- resolve of src/fat16.c: its loop ends by itself, and a component longer than its buffer is taken for
-- two.
use rvos.Common.{
  ℕ, zero, suc, ◌-◌, ◌≤◌, ◌<◌, ◌≡◌, refl, sym, ap, subst, fun_ext, ◌∙◌, inl, inr, false, none, [],
  ◌∷◌, ◌++◌, length, length-append, ◌==◌, if◌then◌else◌, arith, Bool-cases, All,
}
use rvos.Text.{Str}
use rvos.Fat.{Volume}
use rvos.Fat.Scan.{fat_name_max}
use rvos.Fat.Paths.{skip_slashes, component, at_component, resolve_loop, resolve}

skip_slashes-length : (p : Str) → length (skip_slashes p) ≤ length p
unfolding skip_slashes
skip_slashes-length [] = omega arith
skip_slashes-length (c ∷ p) = elim (Bool-cases (c == b'/')) [
  | inl y ↦ rw (skip_slashes, y) (omega (arith, skip_slashes-length p))
  | inr n ↦ rw (skip_slashes, n) (omega arith)
]

component-length : (room : ℕ) (p : Str) → length (component room p).1 ≤ length p
unfolding component
component-length zero p = omega arith
component-length (suc room) [] = omega arith
component-length (suc room) (c ∷ p) = elim (Bool-cases (c == b'/')) [
  | inl y ↦ rw (component, y) (omega arith)
  | inr n ↦ rw (component, n) (omega (arith, component-length room p))
]

-- What is left of a path after a component is shorter than the path.
shorter :
    (room : ℕ) (c : ℕ) (p : Str) → length (skip_slashes (component (suc room) (c ∷ p)).1) ≤ length p
unfolding component skip_slashes
shorter room c p = elim (Bool-cases (c == b'/')) [
  | inl y ↦ rw (component, y, skip_slashes, y) (skip_slashes-length p)
  | inr n ↦
      rw (component, n)
        (omega (arith, skip_slashes-length (component room p).1, component-length room p))
]

resolve_loop_enough :
    (f g : ℕ) (v : Volume) (dir : ℕ) (p : Str)
    → length p ≤ f
    → length p ≤ g
    → resolve_loop f v dir p ≡ resolve_loop g v dir p
unfolding resolve_loop
resolve_loop_enough zero zero v dir p a b = refl
resolve_loop_enough zero (suc g) v dir [] a b = refl
resolve_loop_enough (suc f) zero v dir [] a b = refl
resolve_loop_enough (suc f) (suc g) v dir [] a b = refl
resolve_loop_enough zero (suc g) v dir (c ∷ p) a b = absurd (omega arith)
resolve_loop_enough (suc f) zero v dir (c ∷ p) a b = absurd (omega arith)
resolve_loop_enough (suc f) (suc g) v dir (c ∷ p) a b =
    let comp = (component (fat_name_max - 1) (c ∷ p)).0 in
    let rest = skip_slashes (component (fat_name_max - 1) (c ∷ p)).1 in
    let less : length rest ≤ length p = shorter 94 c p in
    ap (at_component v dir comp rest) (
      fun_ext λ d.
        fun_ext λ w. resolve_loop_enough f g w d rest (omega (arith, less)) (omega (arith, less)))

-- No byte of a component is a slash.
abbrev pub NoSlash : Str → Type 0
NoSlash = All (λ c. (c == b'/') ≡ false)

component_full : (comp t : Str) → NoSlash comp → component (length comp) (comp ++ t) ≡ (comp, t)
unfolding component
component_full [] t h = refl
component_full (c ∷ comp) t h = rw (component, h.0, component_full comp t h.1) refl

skip_none : (x : ℕ) (p : Str) → (x == b'/') ≡ false → skip_slashes (x ∷ p) ≡ x ∷ p
unfolding skip_slashes
skip_none x p h = rw (skip_slashes, h) refl

skip_one : (x : ℕ) (p : Str) → (x == b'/') ≡ false → skip_slashes (b'/' ∷ x ∷ p) ≡ x ∷ p
unfolding skip_slashes
skip_one x p h = skip_none x p h

-- A round of the loop where the component and what is behind it are known.
round :
    (rounds : ℕ) (v : Volume) (dir : ℕ) (comp more : Str)
    → NoSlash comp
    → length comp ≡ fat_name_max - 1
    → resolve_loop (suc rounds) v dir (comp ++ more)
      ≡ at_component v dir comp
          (skip_slashes more)
          (λ d w. resolve_loop rounds w d (skip_slashes more))
unfolding resolve_loop
round rounds v dir [] more h size = absurd (omega arith)
round rounds v dir (c ∷ comp) more h size =
    let whole : component (fat_name_max - 1) (c ∷ comp ++ more) ≡ (c ∷ comp, more) =
      subst (λ n. component n (c ∷ comp ++ more) ≡ (c ∷ comp, more)) size
        (component_full (c ∷ comp) more h) in
    ap
      (λ (r : Str × Str).
        at_component v dir r.0 (skip_slashes r.1)
          (λ d w. resolve_loop rounds w d (skip_slashes r.1)))
      whole

skip_comp :
    (comp more : Str) → NoSlash comp → 0 < length comp → skip_slashes (comp ++ more) ≡ comp ++ more
skip_comp [] more h some_byte = absurd (omega arith)
skip_comp (c ∷ comp) more h some_byte = skip_none c (comp ++ more) h.0

whole_path :
    (m : ℕ) (v : Volume) (comp more rest : Str)
    → NoSlash comp
    → length comp ≡ fat_name_max - 1
    → skip_slashes more ≡ rest
    → length (comp ++ more) ≤ suc m
    → resolve_loop (length (comp ++ more)) v 0 (skip_slashes (comp ++ more))
      ≡ at_component v 0 comp rest (λ d w. resolve_loop m w d rest)
whole_path m v comp more rest h size behind room =
    ap (resolve_loop (length (comp ++ more)) v 0) (skip_comp comp more h (omega (arith, size)))
    ∙ resolve_loop_enough (length (comp ++ more)) (suc m) v 0 (comp ++ more) (omega arith) room
    ∙ round m v 0 comp more h size
    ∙ ap (λ r. at_component v 0 comp r (λ d w. resolve_loop m w d r)) behind

-- Behind the first ninety-five bytes of a path, none of them a slash, resolve goes on at a byte that is
-- no slash as it does behind a slash: on no volume is a longer component refused as such.
pub resolve-splits :
    (v : Volume) (comp : Str) (x : ℕ) (p : Str)
    → NoSlash comp
    → length comp ≡ fat_name_max - 1
    → (x == b'/') ≡ false
    → resolve v (comp ++ x ∷ p) ≡ resolve v (comp ++ b'/' ∷ x ∷ p)
unfolding resolve
resolve-splits v comp x p h size plain =
    let m = length (comp ++ b'/' ∷ x ∷ p) in
    let a = length-append comp (x ∷ p) in
    let b = length-append comp (b'/' ∷ x ∷ p) in
    let plainly =
      whole_path m v comp (x ∷ p) (x ∷ p) h size (skip_none x p plain) (omega (arith, a, b)) in
    let slashed =
      whole_path m v comp (b'/' ∷ x ∷ p) (x ∷ p) h size (skip_one x p plain) (omega arith) in
    ap (λ r. if v.fs.ok then r else (none, v)) (plainly ∙ sym slashed)
