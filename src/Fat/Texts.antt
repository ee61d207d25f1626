-- ===== src/Fat/Texts.antt =====
-- Texts in the eleven bytes of a name of src/fat16.c, and how `part` reads them back.
use rvos.Common.{
  ℕ, zero, suc, ◌+◌, ◌≤◌, ◌<◌, ◌≡◌, refl, ap, ◌∙◌, Bool, true, false, ◌&&◌, [], ◌∷◌, length, All,
  ◌==◌, ◌!=◌, update, update_self, update_ne, arith,
}
use rvos.Text.{Str}
use rvos.Fat.Names.{Field, up, part, plain}

pub up-plain : (c : ℕ) → plain c ≡ true → up c ≡ c
up-plain c h = ground arith

-- Bytes that stand in a part of a short name: plain, and no dot.
abbrev pub letter : ℕ → Bool
letter c = (c != b'.') && plain c

-- The field with a text in it from `o` on.
abbrev pub with_text : Str → ℕ → Field → Field
with_text [] o out = out
with_text (c ∷ s) o out = with_text s (o + 1) (update out o c)

pub with_text_before : (s : Str) (o : ℕ) (out : Field) (j : ℕ) → j < o → with_text s o out j ≡ out j
with_text_before [] o out j below = refl
with_text_before (c ∷ s) o out j below =
    with_text_before s (o + 1) (update out o c) j (omega arith)
    ∙ update_ne out o c j (λ e. omega (arith, e))

pub with_text_after :
    (s : Str) (o : ℕ) (out : Field) (j : ℕ) → o + length s ≤ j → with_text s o out j ≡ out j
with_text_after [] o out j above = refl
with_text_after (c ∷ s) o out j above =
    with_text_after s (o + 1) (update out o c) j (omega arith)
    ∙ update_ne out o c j (λ e. omega (arith, e))

-- The text stands in the field from `o` on.
abbrev Stands : Str → ℕ → Field → Type 0
Stands [] o d = Unit
Stands (c ∷ s) o d = (d o ≡ c) × Stands s (o + 1) d

pub Stands-with_text : (s : Str) (o : ℕ) (out : Field) → Stands s o (with_text s o out)
Stands-with_text [] o out = tt
Stands-with_text (c ∷ s) o out = (
  with_text_before s (o + 1) (update out o c) o (omega arith) ∙ update_self out o c,
  Stands-with_text s (o + 1) (update out o c),
)

pub Stands-under :
    (s : Str) (o : ℕ) (d : Field) (t : Str) (p : ℕ)
    → o + length s ≤ p
    → Stands s o d
    → Stands s o (with_text t p d)
Stands-under [] o d t p room h = tt
Stands-under (c ∷ s) o d t p room h =
    (with_text_before t p d o (omega arith) ∙ h.0, Stands-under s (o + 1) d t p (omega arith) h.1)

abbrev pub Letters : Str → Type 0
Letters = All (λ c. letter c ≡ true)

-- A text without blanks is read back where a blank or the end of the part follows it.
pub part-Stands :
    (s : Str) (left o : ℕ) (d : Field)
    → Letters s
    → Stands s o d
    → length s ≤ left
    → (length s < left → d (o + length s) ≡ b' ')
    → part left o d ≡ s
unfolding part
part-Stands [] zero o d ok h fits end = refl
part-Stands [] (suc left) o d ok h fits end =
    let blank : d o ≡ b' ' = ap d (omega arith) ∙ end (omega arith) in rw blank refl
part-Stands (c ∷ s) zero o d ok h fits end = absurd (omega arith)
part-Stands (c ∷ s) (suc left) o d ok h fits end =
    let kept : letter c ≡ true = ok.0 in
    let first : d o ≡ c = h.0 in
    let solid : (c == b' ') ≡ false = ground arith in
    let next : length s < left → d (o + 1 + length s) ≡ b' ' =
      λ l. ap d (omega arith) ∙ end (omega arith) in
    rw (first, solid, part-Stands s left (o + 1) d ok.1 h.1 (omega arith) next) refl
