-- ===== src/Text/Numerals.antt =====
-- Decimal and hexadecimal printing, against reading the digits back.
use native.Mathlib.Nat.{pow-suc}
use rvos.Common.{
  true, ℕ, zero, suc, ◌+◌, ◌-◌, ◌*◌, ◌/◌, ◌%◌, ◌^◌, ◌≤◌, ◌<◌, ◌≡◌, refl, [], ◌∷◌, arith, ltb, inl,
  inr, Bool-cases, ◌==◌, if◌then◌else◌, length, get_or, ap, ==_iff, passes, passes_at,
}
use rvos.Text.{Str, utoa_loop, utoa, hex_digits, xtoa_loop, xtoa}

-- The number that a row of decimal digits stands for, after `acc`.
abbrev pub decimal : ℕ → Str → ℕ
decimal acc [] = acc
decimal acc (c ∷ s) = decimal (acc * 10 + (c - b'0')) s

abbrev unhex : ℕ → ℕ
unhex c = if ltb c b'a' then c - b'0' else c - b'a' + 10

abbrev pub hexadecimal : ℕ → Str → ℕ
hexadecimal acc [] = acc
hexadecimal acc (c ∷ s) = hexadecimal (acc * 16 + unhex c) s

pub decimal-utoa_loop :
    (f v : ℕ) (tmp : Str) → v < 10 ^ f → decimal 0 (utoa_loop f v tmp) ≡ decimal v tmp
unfolding utoa_loop
decimal-utoa_loop zero v tmp h = let e : v ≡ 0 = omega arith in rw e
decimal-utoa_loop (suc f) v tmp h = elim (Bool-cases (v == 0)) [
  | inl z ↦ let e : v ≡ 0 = ground arith in rw e
  | inr nz ↦
      rw (nz, decimal-utoa_loop f (v / 10) ((b'0' + v % 10) ∷ tmp) (omega (arith, pow-suc 10 f)))
        (ap (λ k. decimal k tmp) (omega arith))
]

pub length-utoa_loop :
    (f k v : ℕ) (tmp : Str) → v < 10 ^ k → k ≤ f → length (utoa_loop f v tmp) ≤ k + length tmp
unfolding utoa_loop
length-utoa_loop zero k v tmp h le = omega arith
length-utoa_loop (suc f) zero v tmp h le = let e : v ≡ 0 = omega arith in rw e (omega arith)
length-utoa_loop (suc f) (suc k) v tmp h le =
    let ih : length (utoa_loop f (v / 10) ((b'0' + v % 10) ∷ tmp)) ≤ k + suc (length tmp) =
      length-utoa_loop f k (v / 10) ((b'0' + v % 10) ∷ tmp) (omega (arith, pow-suc 10 k))
        (omega arith) in
    ground arith

-- A number printed by `utoa` reads back as itself, in at most twenty digits, which fit in
-- `char tmp[24]`.
utoa_round_trip : (v : ℕ) → v < 2 ^ 64 → (decimal 0 (utoa v) ≡ v) × (length (utoa v) ≤ 20)
unfolding utoa
utoa_round_trip v h = elim (Bool-cases (v == 0)) [
  | inl z ↦ let e : v ≡ 0 = ground arith in rw e (refl, omega arith)
  | inr nz ↦ rw nz (
    decimal-utoa_loop 24 v [] (omega arith),
    length-utoa_loop 24 20 v [] (omega arith) (omega arith),
  )
]

hex_table : passes (λ d. unhex (get_or hex_digits d 0) == d) 16 ≡ true
unfolding passes
hex_table = refl

unhex-digit : (d : ℕ) → d < 16 → unhex (get_or hex_digits d 0) ≡ d
unhex-digit d h =
    (==_iff _ d).0 (passes_at (λ d. unhex (get_or hex_digits d 0) == d) 16 d h hex_table)

pub hexadecimal-xtoa_loop :
    (f v : ℕ) (tmp : Str) → v < 16 ^ f → hexadecimal 0 (xtoa_loop f v tmp) ≡ hexadecimal v tmp
unfolding xtoa_loop
hexadecimal-xtoa_loop zero v tmp h = let e : v ≡ 0 = omega arith in rw e
hexadecimal-xtoa_loop (suc f) v tmp h = elim (Bool-cases (v == 0)) [
  | inl z ↦ let e : v ≡ 0 = ground arith in rw e
  | inr nz ↦
      rw
        (
          nz,
          hexadecimal-xtoa_loop f (v / 16) (get_or hex_digits (v % 16) 0 ∷ tmp)
              (omega (arith, pow-suc 16 f)),
        )
        (ap (λ k. hexadecimal k tmp) (omega (arith, unhex-digit (v % 16) (omega arith))))
]

-- A number printed by `xtoa` reads back as itself.
xtoa_round_trip : (v : ℕ) → v < 2 ^ 64 → hexadecimal 0 (xtoa v) ≡ v
unfolding xtoa
xtoa_round_trip v h = elim (Bool-cases (v == 0)) [
  | inl z ↦ let e : v ≡ 0 = ground arith in rw e
  | inr nz ↦ rw nz (hexadecimal-xtoa_loop 24 v [] (omega arith))
]
