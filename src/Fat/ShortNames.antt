-- ===== src/Fat/ShortNames.antt =====
-- fits_83, to_83 and fmt_name of src/fat16.c: a name that the old alphabet holds is read back as it
-- was written.
use rvos.Common.{
  ℕ, ◌+◌, ◌≤◌, ◌<◌, ◌≡◌, refl, sym, ap, subst, ◌∙◌, inl, inr, Bool, true, false, ◌&&◌, ◌||◌, Option,
  none, some, [], ◌∷◌, ◌++◌, length, append-nil, All, ltb, leb, leb→le, ◌==◌, ◌!=◌, update, arith,
  Bool-cases, Option-cases, ==_iff,
}
use mathlib.Core.Bool.{false≢true}
use mathlib.Core.Option.{some-injective, none-ne-some}
use rvos.Text.{Str}
use rvos.Fat.Names.{
  Field, c_str, fmt_name, blanks, put_base, to_dot, put_ext, after_dot, to_83, plain, base_of,
  ext_of, ext_fits, fits_83,
}
use rvos.Fat.Texts.{
  up-plain, letter, with_text, with_text_before, with_text_after, Stands-with_text, Stands-under,
  Letters, part-Stands,
}

-- A name is a base, and after a dot an extension.
abbrev dotted : Option Str → Str
dotted none = []
dotted (some e) = b'.' ∷ e

base_of-shape :
    (name : Str) (b n : ℕ) (rest : Str)
    → base_of name b ≡ some (n, rest)
    → ((base : Str) × (ext : Option Str) × (name ≡ base ++ rest)
        × Letters base
        × (n ≡ b + length base)
        × (rest ≡ dotted ext))
unfolding base_of
base_of-shape [] b n rest h =
    let p = some-injective _ _ h in
    let left : [] ≡ rest = ap (λ q. q.1) p in
    ([], none, left, tt, omega (arith, ap (λ q. q.0) p), sym left)
base_of-shape (c ∷ s) b n rest h = elim (Bool-cases (c == b'.')) [
  | inl dot ↦
      let p = some-injective _ _ (rw dot at h) in
      let left : c ∷ s ≡ rest = ap (λ q. q.1) p in
      let same : c ≡ b'.' = (==_iff c b'.').0 dot in
      ([], some s, left, tt, omega (arith, ap (λ q. q.0) p), sym left ∙ ap (λ x. x ∷ s) same)
  | inr other ↦ elim (Bool-cases (plain c)) [
    | inl stands ↦
        let r = base_of-shape s (b + 1) n rest (rw (other, stands) at h) in
        let kept : letter c ≡ true = ground arith in
        (c ∷ r.0, r.1, ap (λ t. c ∷ t) r.2, (kept, r.3), omega (arith, r.4), r.5)
    | inr odd ↦ absurd (none-ne-some _ (rw (other, odd) at h))
  ]
]

ext_of-length : (s : Str) (e n : ℕ) → ext_of s e ≡ some n → Letters s × (n ≡ e + length s)
unfolding ext_of
ext_of-length [] e n h = (tt, omega (arith, some-injective _ _ h))
ext_of-length (c ∷ s) e n h = elim (Bool-cases (letter c)) [
  | inl kept ↦ let r = ext_of-length s (e + 1) n (rw kept at h) in ((kept, r.0), omega (arith, r.1))
  | inr odd ↦ absurd (none-ne-some _ (rw odd at h))
]

-- What to_83 makes of a base and an extension.
put_base_lem :
    (base : Str) (ext : Option Str) (o : ℕ) (out : Field)
    → Letters base
    → o + length base ≤ 8
    → put_base (base ++ dotted ext) o out ≡ (dotted ext, with_text base o out)
unfolding put_base
put_base_lem [] none o out ok fits = refl
put_base_lem [] (some e) o out ok fits = refl
put_base_lem (c ∷ s) ext o out ok fits =
    let kept : letter c ≡ true = ok.0 in
    let same = up-plain c (ground arith) in
    let go : ((c != b'.') && ltb o 8) ≡ true = ground arith in
    rw (go, same) (put_base_lem s ext (o + 1) (update out o c) ok.1 (omega arith))

put_ext_lem :
    (s : Str) (e : ℕ) (out : Field)
    → Letters s
    → e + length s ≤ 11
    → put_ext s e out ≡ with_text s e out
unfolding put_ext
put_ext_lem [] e out ok fits = refl
put_ext_lem (c ∷ s) e out ok fits =
    let kept : letter c ≡ true = ok.0 in
    let same = up-plain c (ground arith) in
    let go : ltb e 11 ≡ true = ground arith in
    rw (go, same) (put_ext_lem s (e + 1) (update out e c) ok.1 (omega arith))

abbrev NoNul : Str → Type 0
NoNul = All (λ c. (c == 0) ≡ false)

c_str_lem : (s : Str) → NoNul s → c_str s ≡ s
unfolding c_str
c_str_lem [] h = refl
c_str_lem (c ∷ s) h = rw (h.0, c_str_lem s h.1) refl

fmt_name_base :
    (base : Str)
    → Letters base
    → length base ≤ 8
    → NoNul base
    → fmt_name (with_text base 0 blanks) ≡ base
unfolding fmt_name
fmt_name_base base ok fits full =
    let at8 : with_text base 0 blanks 8 ≡ b' ' = with_text_after base 0 blanks 8 (omega arith) in
    let at9 : with_text base 0 blanks 9 ≡ b' ' = with_text_after base 0 blanks 9 (omega arith) in
    let at10 : with_text base 0 blanks 10 ≡ b' ' = with_text_after base 0 blanks 10 (omega arith) in
    let whole =
      part-Stands base 8 0 (with_text base 0 blanks) ok (Stands-with_text base 0 blanks) fits
        (λ l. with_text_after base 0 blanks (0 + length base) (omega arith)) in
    rw (at8, at9, at10, whole) (c_str_lem base full)

fmt_name_ext :
    (base ext : Str)
    → Letters base
    → length base ≤ 8
    → Letters ext
    → length ext ≤ 3
    → 0 < length ext
    → NoNul (base ++ b'.' ∷ ext)
    → fmt_name (with_text ext 8 (with_text base 0 blanks)) ≡ base ++ b'.' ∷ ext
unfolding fmt_name
fmt_name_ext base [] ok fits okx fitsx some_ext full = absurd (omega arith)
fmt_name_ext base (x ∷ ext) ok fits okx fitsx some_ext full =
    let d = with_text (x ∷ ext) 8 (with_text base 0 blanks) in
    let stands = Stands-with_text (x ∷ ext) 8 (with_text base 0 blanks) in
    let kept : letter x ≡ true = okx.0 in
    let has : ((d 8 != b' ') || (d 9 != b' ') || (d 10 != b' ')) ≡ true =
      rw (stands.0) (ground arith) in
    let front =
      part-Stands base 8 0 d ok
        (Stands-under base 0 (with_text base 0 blanks) (x ∷ ext) 8 (omega arith)
          (Stands-with_text base 0 blanks))
        fits
        (λ l.
          with_text_before (x ∷ ext) 8 (with_text base 0 blanks) (0 + length base) (omega arith)
          ∙ with_text_after base 0 blanks (0 + length base) (omega arith)) in
    let back = part-Stands (x ∷ ext) 3 8 d okx stands fitsx (λ l.
      with_text_after (x ∷ ext) 8 (with_text base 0 blanks) (8 + length (x ∷ ext)) (omega arith)
      ∙ with_text_after base 0 blanks (8 + length (x ∷ ext)) (omega arith)) in
    rw (has, front, back) (c_str_lem (base ++ b'.' ∷ x ∷ ext) full)

to_83_lem :
    (base : Str) (ext : Option Str)
    → Letters base
    → length base ≤ 8
    → to_83 (base ++ dotted ext) ≡ after_dot (to_dot (dotted ext)) (with_text base 0 blanks)
unfolding to_83
to_83_lem base ext ok fits = rw (put_base_lem base ext 0 blanks ok (omega arith)) refl

ext_fits_lem : (e : Str) → ext_fits (b'.' ∷ e) ≡ true → Letters e × (0 < length e) × (length e ≤ 3)
unfolding ext_fits
ext_fits_lem e h = elim (Option-cases (ext_of e 0)) [
  | inl none_e ↦ absurd (false≢true (rw (ext_fits, none_e) at h))
  | inr (n, e') ↦
      let r = ext_of-length e 0 n e' in
      let long : ((n != 0) && leb n 3) ≡ true = rw (ext_fits, e') at h in
      let size : n ≡ 0 + length e = r.1 in (r.0, ground arith, ground arith)
]

round_trip :
    (base : Str) (ext : Option Str)
    → Letters base
    → length base ≤ 8
    → ext_fits (dotted ext) ≡ true
    → NoNul (base ++ dotted ext)
    → fmt_name (to_83 (base ++ dotted ext)) ≡ base ++ dotted ext
unfolding to_dot after_dot
round_trip base none ok fits fitsx full =
    ap fmt_name (to_83_lem base none ok fits)
    ∙ fmt_name_base base ok fits (subst NoNul (append-nil base) full)
    ∙ sym (append-nil base)
round_trip base (some e) ok fits fitsx full =
    let r = ext_fits_lem e fitsx in
    ap fmt_name (
      to_83_lem base (some e) ok fits
      ∙ put_ext_lem e 8 (with_text base 0 blanks) r.0 (omega (arith, r.2)))
    ∙ fmt_name_ext base e ok fits r.0 r.2 r.1 full

both_left : (a b c : Bool) → (a && b && c) ≡ true → b ≡ true
both_left a b c h = ground arith

both_right : (a b c : Bool) → (a && b && c) ≡ true → c ≡ true
both_right a b c h = ground arith

fits_83-cases :
    (name : Str) (out : Field)
    → fits_83 name ≡ some out
    → ((p : ℕ × Str) × (base_of name 0 ≡ some p)
        × (leb p.0 8 ≡ true)
        × (ext_fits p.1 ≡ true)
        × (to_83 name ≡ out))
unfolding fits_83
fits_83-cases name out h = elim (Option-cases (base_of name 0)) [
  | inl e ↦ absurd (none-ne-some _ (rw (fits_83, e) at h))
  | inr (p, e) ↦ elim (Bool-cases ((p.0 != 0) && leb p.0 8 && ext_fits p.1)) [
    | inl y ↦ (
      p,
      e,
      both_left (p.0 != 0) (leb p.0 8) (ext_fits p.1) y,
      both_right (p.0 != 0) (leb p.0 8) (ext_fits p.1) y,
      some-injective _ _ (rw (fits_83, e, y) at h),
    )
    | inr n ↦ absurd (none-ne-some _ (rw (fits_83, e, n) at h))
  ]
]

-- A name of bytes other than NUL that fits_83 accepts is read back from its field as it was given.
pub fmt_name-fits_83 :
    (name : Str) (out : Field) → NoNul name → fits_83 name ≡ some out → fmt_name out ≡ name
fmt_name-fits_83 name out full h =
    let c = fits_83-cases name out h in
    let r = base_of-shape name 0 c.0.0 c.0.1 c.1 in
    let whole : name ≡ r.0 ++ dotted r.1 = r.2 ∙ ap (λ t. r.0 ++ t) r.5 in
    let room : length r.0 ≤ 8 = omega (arith, leb→le c.0.0 8 c.2, r.4) in
    let fitsx : ext_fits (dotted r.1) ≡ true = ap ext_fits (sym r.5) ∙ c.3 in
    ap fmt_name (sym c.4 ∙ ap to_83 whole)
    ∙ round_trip r.0 r.1 r.3 room fitsx (subst NoNul whole full)
    ∙ sym whole
