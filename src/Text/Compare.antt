-- ===== src/Text/Compare.antt =====
-- String comparison and prefixes, against equality and concatenation.
use rvos.Common.{◌≡◌, refl, true, [], ◌∷◌, ◌++◌, arith}
use rvos.Text.{Str, streq, str_has_prefix}

pub streq_refl : (a : Str) → streq a a ≡ true
unfolding streq
streq_refl [] = refl
streq_refl (x ∷ a) = ground (arith, streq_refl a)

pub streq_eq : (a b : Str) → streq a b ≡ true → a ≡ b
unfolding streq
streq_eq [] [] h = refl
streq_eq [] (y ∷ b) h = ground arith
streq_eq (x ∷ a) [] h = ground arith
streq_eq (x ∷ a) (y ∷ b) h = ground (arith, streq_eq a b)

pub has_prefix_split : (s p : Str) → str_has_prefix s p ≡ true → (r : Str) × (s ≡ p ++ r)
unfolding str_has_prefix
has_prefix_split s [] h = (s, refl)
has_prefix_split [] (c ∷ p) h = ground arith
has_prefix_split (x ∷ s) (c ∷ p) h =
    let ih : (r : Str) × (s ≡ p ++ r) = has_prefix_split s p (ground arith) in (ih.0, ground arith)

pub has_prefix_append : (p r : Str) → str_has_prefix (p ++ r) p ≡ true
unfolding str_has_prefix
has_prefix_append [] r = refl
has_prefix_append (c ∷ p) r = ground (arith, has_prefix_append p r)
