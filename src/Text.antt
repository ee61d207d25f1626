-- ===== src/Text.antt =====
-- src/util.c: the string helpers of the kernel. A C string is the list of its bytes before the NUL.
pub mod Compare
pub mod Literals
pub mod Numerals
use rvos.Common.{
  ℕ, zero, suc, ◌+◌, ◌/◌, ◌%◌, Bool, true, false, List, [], ◌∷◌, ◌==◌, if◌then◌else◌, get_or,
}

abbrev pub Str : Type 0
Str = List ℕ

-- `streq` of src/vfs.c. Bytes of a string are not zero, so a string that ends first differs.
unfoldable pub streq : Str → Str → Bool
streq [] [] = true
streq [] (y ∷ b) = false
streq (x ∷ a) [] = false
streq (x ∷ a) (y ∷ b) = if x == y then streq a b else false

unfoldable pub str_has_prefix : Str → Str → Bool
str_has_prefix s [] = true
str_has_prefix [] (c ∷ p) = false
str_has_prefix (x ∷ s) (c ∷ p) = if x == c then str_has_prefix s p else false

-- `tmp`, last digit written first, so that the copy in reverse order is the list itself.
pub utoa_loop : ℕ → ℕ → Str → Str
utoa_loop zero v tmp = tmp
utoa_loop (suc room) v tmp =
    let rest = utoa_loop room (v / 10) ((b'0' + v % 10) ∷ tmp) in if v == 0 then tmp else rest

-- The rounds are bounded by `char tmp[24]`.
pub utoa : ℕ → Str
utoa v = if v == 0 then b'0' ∷ [] else utoa_loop 24 v []

abbrev pub hex_digits : Str
hex_digits =
    b'0' ∷ b'1' ∷ b'2' ∷ b'3' ∷ b'4' ∷ b'5' ∷ b'6' ∷ b'7' ∷ b'8' ∷ b'9' ∷ b'a' ∷ b'b' ∷ b'c' ∷ b'd'
    ∷ b'e' ∷ b'f' ∷ []

-- `v & 0xf` is `v % 16`, and `v >>= 4` is `v / 16`.
pub xtoa_loop : ℕ → ℕ → Str → Str
xtoa_loop zero v tmp = tmp
xtoa_loop (suc room) v tmp =
    let rest = xtoa_loop room (v / 16) (get_or hex_digits (v % 16) 0 ∷ tmp) in
    if v == 0 then tmp else rest

pub xtoa : ℕ → Str
xtoa v = if v == 0 then b'0' ∷ [] else xtoa_loop 24 v []
