-- ===== src/Fat/Unicode.antt =====
-- src/fat16.c: a name as UTF-8 and as UTF-16. `c & 0x3f` of a byte is `c % 64`, `c << 6 | k` is
-- `c * 64 + k`, and the tests of the high bits are divisions.
use rvos.Common.{
  ℕ, zero, suc, ◌+◌, ◌-◌, ◌*◌, ◌/◌, ◌%◌, ◌^◌, Bool, ◌&&◌, Option, none, some, List, [], ◌∷◌, ◌++◌,
  length, ltb, leb, ◌==◌, if◌then◌else◌,
}
use rvos.Text.{Str}

-- The continuation bytes; the NUL after the text is none.
unfoldable pub continue16 : ℕ → ℕ → Str → Option (ℕ × Str)
continue16 zero c s = some (c, s)
continue16 (suc extra) c [] = none
continue16 (suc extra) c (k ∷ s) =
    let rest = continue16 extra (c * 64 + k % 64) s in if k / 64 == 2 then rest else none

-- What a first byte says: its bits of the code, and how many bytes follow.
unfoldable pub lead : ℕ → Option (ℕ × ℕ)
lead c =
    if ltb c 0x80
    then some (c, 0)
    else if c / 32 == 6
    then some (c % 32, 1)
    else if c / 16 == 14
    then some (c % 16, 2)
    else if c / 8 == 30
    then some (c % 8, 3)
    else none

-- The units of one code, in front of those of the rest.
unfoldable pub units_of : ℕ → List ℕ
units_of c =
    if leb 0x1_0000 c
    then ((0xd800 + (c - 0x1_0000) / 1024) % 2 ^ 16) ∷ (0xdc00 + (c - 0x1_0000) % 1024) ∷ []
    else c ∷ []

unfoldable pub read_code : Str → Option (ℕ × Str)
read_code [] = none
read_code (c ∷ s) = elim (lead c) [ none ↦ none | some l ↦ continue16 l.1 l.0 s ]

-- By the rounds that are left: each takes a byte at least. `max` is the room of `out`.
unfoldable pub utf16_loop : ℕ → Str → ℕ → Option (List ℕ)
utf16_loop zero s max = some []
utf16_loop (suc rounds) [] max = some []
utf16_loop (suc rounds) (x ∷ s) max = elim (read_code (x ∷ s)) [
  | none ↦ none
  | some r ↦
      let us = units_of r.0 in
      let rest = utf16_loop rounds r.1 (max - length us) in
      if ltb max (length us)
      then none
      else elim rest [ none ↦ none | some more ↦ some (us ++ more) ]
]

unfoldable pub to_utf16 : Str → ℕ → Option (List ℕ)
to_utf16 s max = utf16_loop (length s) s max

abbrev pub is_high : ℕ → Bool
is_high c = leb 0xd800 c && ltb c 0xdc00

abbrev pub is_low : ℕ → Bool
is_low c = leb 0xdc00 c && ltb c 0xe000

unfoldable pub bytes_of : ℕ → Str
bytes_of c =
    if ltb c 0x80
    then c ∷ []
    else if ltb c 0x800
    then (0xc0 + c / 64) ∷ (0x80 + c % 64) ∷ []
    else if ltb c 0x1_0000
    then (0xe0 + c / 4096) ∷ (0x80 + c / 64 % 64) ∷ (0x80 + c % 64) ∷ []
    else (0xf0 + c / 2 ^ 18) ∷ (0x80 + c / 4096 % 64) ∷ (0x80 + c / 64 % 64) ∷ (0x80 + c % 64) ∷ []

-- Bytes in front of the rest, where `n` bytes are written already and there is room for the NUL.
unfoldable pub emit : Str → ℕ → ℕ → Option Str → Option Str
emit bytes n cap rest =
    if leb cap (n + length bytes)
    then none
    else elim rest [ none ↦ none | some more ↦ some (bytes ++ more) ]

-- `held` is a high unit whose second half has not been looked for.
unfoldable pub to_utf8 : List ℕ → ℕ → ℕ → Option Str
to_utf8 [] n cap = some []
to_utf8 (c ∷ []) n cap = emit (bytes_of c) n cap (some [])
to_utf8 (c ∷ x ∷ rest) n cap =
    let pair = 0x1_0000 + (c - 0xd800) * 1024 + (x - 0xdc00) in
    let after_pair = to_utf8 rest (n + length (bytes_of pair)) cap in
    let after_one = to_utf8 (x ∷ rest) (n + length (bytes_of c)) cap in
    if is_high c && is_low x
    then emit (bytes_of pair) n cap after_pair
    else emit (bytes_of c) n cap after_one
