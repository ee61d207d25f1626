-- ===== src/Fat/Utf.antt =====
-- to_utf8 and to_utf16 of src/fat16.c: a name that was read from the disk is the same units when it
-- is written.
use rvos.Common.{
  ℕ, zero, suc, ◌+◌, ◌-◌, ◌*◌, ◌/◌, ◌%◌, ◌^◌, ◌≤◌, ◌<◌, ◌≡◌, refl, sym, ap, subst, ◌∙◌, inl, inr,
  true, false, ◌&&◌, Option, some, List, [], ◌∷◌, ◌++◌, length, length-append, All, ltb, leb, arith,
  Bool-cases, Option-cases,
}
use rvos.Text.{Str}
use mathlib.Core.Option.{some-injective, none-ne-some}
use rvos.Fat.Unicode.{
  units_of, read_code, utf16_loop, to_utf16, is_high, is_low, bytes_of, emit, to_utf8,
}
use rvos.Fat.Codes.{read_code-bytes_of}

emitted :
    (bytes : Str) (n cap : ℕ) (rest : Option Str) (out : Str)
    → emit bytes n cap rest ≡ some out
    → ((more : Str) × (rest ≡ some more) × (out ≡ bytes ++ more))
unfolding emit
emitted bytes n cap rest out h = elim (Bool-cases (leb cap (n + length bytes))) [
  | inl full ↦ absurd (none-ne-some _ (rw (emit, full) at h))
  | inr room ↦ elim (Option-cases rest) [
    | inl e ↦ absurd (none-ne-some _ (rw (emit, room, e) at h))
    | inr (more, e) ↦ (more, e, sym (some-injective _ _ (rw (emit, room, e) at h)))
  ]
]

bytes_of-length : (c : ℕ) → 0 < length (bytes_of c)
unfolding bytes_of
bytes_of-length c = elim (Bool-cases (ltb c 0x80)) [
  | inl a ↦ rw (bytes_of, a) (omega arith)
  | inr na ↦ elim (Bool-cases (ltb c 0x800)) [
    | inl b ↦ rw (bytes_of, na, b) (omega arith)
    | inr nb ↦ elim (Bool-cases (ltb c 0x1_0000)) [
      | inl d ↦ rw (bytes_of, na, nb, d) (omega arith)
      | inr nd ↦ rw (bytes_of, na, nb, nd) (omega arith)
    ]
  ]
]

utf16_loop_step :
    (r : ℕ) (t s : Str) (c max : ℕ) (more : List ℕ)
    → read_code t ≡ some (c, s)
    → length (units_of c) ≤ max
    → utf16_loop r s (max - length (units_of c)) ≡ some more
    → utf16_loop (suc r) t max ≡ some (units_of c ++ more)
unfolding utf16_loop read_code
utf16_loop_step r [] s c max more first room rest = absurd (none-ne-some _ first)
utf16_loop_step r (x ∷ t) s c max more first room rest =
    let fits : ltb max (length (units_of c)) ≡ false = ground arith in
    rw (utf16_loop, first, fits, rest) refl

-- One code in front of bytes that are read as `tail`.
one :
    (c : ℕ) (more : Str) (rounds max : ℕ) (tail : List ℕ)
    → c < 0x11_0000
    → length (bytes_of c ++ more) ≤ rounds
    → length (units_of c) ≤ max
    → ((r : ℕ) → length more ≤ r → utf16_loop r more (max - length (units_of c)) ≡ some tail)
    → utf16_loop rounds (bytes_of c ++ more) max ≡ some (units_of c ++ tail)
one c more zero max tail bound enough room rest =
    absurd (omega (arith, bytes_of-length c, length-append (bytes_of c) more))
one c more (suc r) max tail bound enough room rest =
    utf16_loop_step r (bytes_of c ++ more) more c max tail (read_code-bytes_of c more bound) room
      (rest r (omega (arith, bytes_of-length c, length-append (bytes_of c) more)))

units_of_single : (c : ℕ) → c < 2 ^ 16 → units_of c ≡ c ∷ []
unfolding units_of
units_of_single c h = let t : leb 0x1_0000 c ≡ false = ground arith in rw (units_of, t) refl

abbrev pair_of : ℕ → ℕ → ℕ
pair_of c x = 0x1_0000 + (c - 0xd800) * 1024 + (x - 0xdc00)

units_of_pair : (c x : ℕ) → is_high c ≡ true → is_low x ≡ true → units_of (pair_of c x) ≡ c ∷ x ∷ []
unfolding units_of
units_of_pair c x h l =
    let t : leb 0x1_0000 (pair_of c x) ≡ true = ground arith in
    let high : (0xd800 + (pair_of c x - 0x1_0000) / 1024) % 2 ^ 16 ≡ c = ground arith in
    let low : 0xdc00 + (pair_of c x - 0x1_0000) % 1024 ≡ x = ground arith in
    rw (units_of, t, high, low) refl

-- Units of a name: no terminator among them.
abbrev pub NameUnits : List ℕ → Type 0
NameUnits = All (λ u. (0 < u) × (u < 2 ^ 16))

decoded_one :
    (c : ℕ) (us : List ℕ) (rest : Option Str) (out : Str) (n cap rounds max : ℕ)
    → c < 2 ^ 16
    → emit (bytes_of c) n cap rest ≡ some out
    → length out ≤ rounds
    → suc (length us) ≤ max
    → ((more : Str) (r m : ℕ)
        → rest ≡ some more
        → length more ≤ r
        → length us ≤ m
        → utf16_loop r more m ≡ some us)
    → utf16_loop rounds out max ≡ some (c ∷ us)
decoded_one c us rest out n cap rounds max bound h enough room ih =
    let e = emitted (bytes_of c) n cap rest out h in
    let size = length (units_of c) in
    let size1 : length (units_of c) ≡ 1 = ap length (units_of_single c bound) in
    let loop =
      one c e.0 rounds max us (omega arith) (subst (λ t. length t ≤ rounds) e.2 enough)
        (omega (arith, size1))
        (λ r l. ih e.0 r (max - length (units_of c)) e.1 l (omega (arith, size1))) in
    subst (λ t. utf16_loop rounds t max ≡ some (c ∷ us)) (sym e.2)
      (loop ∙ ap (λ w. some (w ++ us)) (units_of_single c bound))

decoded_pair :
    (c x : ℕ) (us : List ℕ) (rest : Option Str) (out : Str) (n cap rounds max : ℕ)
    → is_high c ≡ true
    → is_low x ≡ true
    → emit (bytes_of (pair_of c x)) n cap rest ≡ some out
    → length out ≤ rounds
    → suc (suc (length us)) ≤ max
    → ((more : Str) (r m : ℕ)
        → rest ≡ some more
        → length more ≤ r
        → length us ≤ m
        → utf16_loop r more m ≡ some us)
    → utf16_loop rounds out max ≡ some (c ∷ x ∷ us)
decoded_pair c x us rest out n cap rounds max high low h enough room ih =
    let e = emitted (bytes_of (pair_of c x)) n cap rest out h in
    let bound : pair_of c x < 0x11_0000 = ground arith in
    let size2 : length (units_of (pair_of c x)) ≡ 2 = ap length (units_of_pair c x high low) in
    let loop =
      one (pair_of c x) e.0 rounds max us bound (subst (λ t. length t ≤ rounds) e.2 enough)
        (omega (arith, size2))
        (λ r l. ih e.0 r (max - length (units_of (pair_of c x))) e.1 l (omega (arith, size2))) in
    subst (λ t. utf16_loop rounds t max ≡ some (c ∷ x ∷ us)) (sym e.2)
      (loop ∙ ap (λ w. some (w ++ us)) (units_of_pair c x high low))

decoded :
    (us : List ℕ) (n cap : ℕ) (out : Str) (rounds max : ℕ)
    → NameUnits us
    → to_utf8 us n cap ≡ some out
    → length out ≤ rounds
    → length us ≤ max
    → utf16_loop rounds out max ≡ some us
unfolding to_utf8 utf16_loop
decoded [] n cap [] zero max ok h enough room = refl
decoded [] n cap [] (suc r) max ok h enough room = refl
decoded [] n cap (x ∷ out) rounds max ok h enough room =
    absurd (omega (arith, ap length (some-injective _ _ h)))
decoded (c ∷ []) n cap out rounds max ok h enough room =
    decoded_one c [] (some []) out n cap rounds max ok.0.1 h enough room
      (λ more r m e l k. decoded [] n cap more r m tt e l k)
decoded (c ∷ x ∷ us) n cap out rounds max ok h enough room =
    elim (Bool-cases (is_high c && is_low x)) [
      | inl y ↦
          let high : is_high c ≡ true = ground arith in
          let low : is_low x ≡ true = ground arith in
          let h2 : emit (bytes_of (pair_of c x)) n cap
                (to_utf8 us (n + length (bytes_of (pair_of c x))) cap)
              ≡ some out =
            rw (to_utf8, y) at h in
          decoded_pair c x us (to_utf8 us (n + length (bytes_of (pair_of c x))) cap) out n cap
            rounds max high low h2 enough room
            (λ more r m e l k.
              decoded us (n + length (bytes_of (pair_of c x))) cap more r m ok.1.1 e l k)
      | inr single ↦
          let h2 : emit (bytes_of c) n cap (to_utf8 (x ∷ us) (n + length (bytes_of c)) cap)
              ≡ some out =
            rw (to_utf8, single) at h in
          decoded_one c (x ∷ us) (to_utf8 (x ∷ us) (n + length (bytes_of c)) cap) out n cap rounds
            max ok.0.1 h2 enough room
            (λ more r m e l k. decoded (x ∷ us) (n + length (bytes_of c)) cap more r m ok.1 e l k)
    ]

-- What to_utf8 writes for at most `max` units of sixteen bits, none of them 0, to_utf16 reads back as
-- those units.
pub to_utf16-to_utf8 :
    (us : List ℕ) (cap max : ℕ) (out : Str)
    → NameUnits us
    → length us ≤ max
    → to_utf8 us 0 cap ≡ some out
    → to_utf16 out max ≡ some us
unfolding to_utf16
to_utf16-to_utf8 us cap max out ok room h =
    decoded us 0 cap out (length out) max ok h (omega arith) room
