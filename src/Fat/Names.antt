-- ===== src/Fat/Names.antt =====
-- src/fat16.c: names of the old alphabet. The eleven bytes of a name on disk are a function of
-- their index.
use rvos.Common.{
  ℕ, zero, suc, ◌+◌, ◌-◌, ◌*◌, ◌/◌, ◌%◌, Bool, true, false, ◌&&◌, ◌||◌, not, Option, none, some,
  List, [], ◌∷◌, ◌++◌, ltb, leb, ◌==◌, ◌!=◌, if◌then◌else◌, update,
}
use rvos.Text.{Str}

abbrev pub Field : Type 0
Field = ℕ → ℕ

abbrev pub up : ℕ → ℕ
up c = if leb b'a' c && leb c b'z' then c - 32 else c

-- The bytes from `i` on up to a blank, at most `left` of them.
unfoldable pub part : ℕ → ℕ → Field → Str
part zero i d = []
part (suc left) i d = let rest = part left (i + 1) d in if d i == b' ' then [] else d i ∷ rest

-- The bytes before the NUL of a buffer.
unfoldable pub c_str : List ℕ → Str
c_str [] = []
c_str (c ∷ s) = let rest = c_str s in if c == 0 then [] else c ∷ rest

unfoldable pub fmt_name : Field → Str
fmt_name d =
    let has_ext = (d 8 != b' ') || (d 9 != b' ') || (d 10 != b' ') in
    c_str (if has_ext then part 8 0 d ++ b'.' ∷ part 3 8 d else part 8 0 d)

abbrev pub blanks : Field
blanks i = b' '

-- The base of a name, and what of the name is left.
unfoldable pub put_base : Str → ℕ → Field → Str × Field
put_base [] o out = ([], out)
put_base (c ∷ s) o out =
    let rest = put_base s (o + 1) (update out o (up c)) in
    if (c != b'.') && ltb o 8 then rest else (c ∷ s, out)

unfoldable pub to_dot : Str → Str
to_dot [] = []
to_dot (c ∷ s) = let rest = to_dot s in if c == b'.' then c ∷ s else rest

unfoldable pub put_ext : Str → ℕ → Field → Field
put_ext [] e out = out
put_ext (c ∷ s) e out =
    let rest = put_ext s (e + 1) (update out e (up c)) in if ltb e 11 then rest else out

unfoldable pub after_dot : Str → Field → Field
after_dot [] out = out
after_dot (dot ∷ s) out = put_ext s 8 out

unfoldable pub to_83 : Str → Field
to_83 name = let (left, out) = put_base name 0 blanks in after_dot (to_dot left) out

-- A byte that stands in a short name as it is.
abbrev pub plain : ℕ → Bool
plain c = ltb c 0x80 && (c != b' ') && not (leb b'a' c && leb c b'z')

-- How long the base is, and what follows it: `none` where a byte does not fit.
unfoldable pub base_of : Str → ℕ → Option (ℕ × Str)
base_of [] b = some (b, [])
base_of (c ∷ s) b =
    let rest = base_of s (b + 1) in
    if c == b'.' then some (b, c ∷ s) else if plain c then rest else none

unfoldable pub ext_of : Str → ℕ → Option ℕ
ext_of [] e = some e
ext_of (c ∷ s) e = let rest = ext_of s (e + 1) in if (c != b'.') && plain c then rest else none

unfoldable pub ext_fits : Str → Bool
ext_fits [] = true
ext_fits (dot ∷ s) = elim (ext_of s 0) [ none ↦ false | some e ↦ (e != 0) && leb e 3 ]

unfoldable pub fits_83 : Str → Option Field
fits_83 name = elim (base_of name 0) [
  | none ↦ none
  | some b ↦ if (b.0 != 0) && leb b.0 8 && ext_fits b.1 then some (to_83 name) else none
]

-- The round for each of the eleven bytes, from `i` on.
unfoldable pub sfn_loop : ℕ → ℕ → ℕ → Field → ℕ
sfn_loop zero i s n11 = s
sfn_loop (suc left) i s n11 = sfn_loop left (i + 1) ((s % 2 * 128 + s / 2 + n11 i) % 256) n11

unfoldable pub sfn_sum : Field → ℕ
sfn_sum n11 = sfn_loop 11 0 0 n11

unfoldable pub name_eq : Str → Str → Bool
name_eq [] [] = true
name_eq [] (y ∷ b) = false
name_eq (x ∷ a) [] = false
name_eq (x ∷ a) (y ∷ b) = let rest = name_eq a b in if up x == up y then rest else false
