-- ===== src/Fat/Pieces.antt =====
-- The entries of a long name of src/fat16.c: the units that lfn_put writes in an entry are those that
-- lfn_get takes out of it, and dscan_next has the units of all of them when it comes to the short
-- entry.
use rvos.Common.{
  ℕ, suc, ◌+◌, ◌-◌, ◌*◌, ◌/◌, ◌%◌, ◌^◌, ◌<◌, ◌≡◌, refl, sym, ap, ◌∙◌, inl, inr, true, false, ◌&&◌,
  List, [], ◌∷◌, length, All, ltb, leb, if◌then◌else◌, arith, update, update_self, update_ne,
  Bool-cases,
}
use native.Mathlib.Decide.{ℕ_discrete}
use rvos.Fat.Names.{Field}
use rvos.Fat.Long.{lfn_chars, lfn_off, Units, get_loop, lfn_get, put_loop, lfn_put}

-- The entry has the unit `u k` at the first offset, and so on.
abbrev pub Carries : List ℕ → Field → Units → ℕ → Type 0
Carries [] d u k = Unit
Carries (off ∷ offs) d u k = (d off + 0x100 * d (off + 1) ≡ u k) × Carries offs d u (k + 1)

get_loop-at :
    (offs : List ℕ) (d : Field) (out u : Units) (at k j : ℕ)
    → Carries offs d u k
    → get_loop offs d out at j
      ≡ (if leb at j && ltb j (at + length offs) then u (k + (j - at)) else out j)
unfolding get_loop
get_loop-at [] d out u at k j c =
    let off : (leb at j && ltb j (at + 0)) ≡ false = ground arith in rw off refl
get_loop-at (o ∷ offs) d out u at k j c =
    let ih =
      get_loop-at offs d (update out at (d o + 0x100 * d (o + 1))) u (at + 1) (k + 1) j c.1 in
    elim (ℕ_discrete at j) [
      | yes e ↦
          let past : (leb (at + 1) j && ltb j (at + 1 + length offs)) ≡ false = ground arith in
          let here : (leb at j && ltb j (at + suc (length offs))) ≡ true = ground arith in
          let now : update out at (d o + 0x100 * d (o + 1)) j ≡ u (k + (j - at)) =
            ap (update out at (d o + 0x100 * d (o + 1))) (sym e)
            ∙ update_self out at _
            ∙ c.0
            ∙ ap u (omega (arith, e)) in
          rw here ((rw past at ih) ∙ now)
      | no ne ↦ elim (Bool-cases (leb (at + 1) j && ltb j (at + 1 + length offs))) [
        | inl y ↦
            let here : (leb at j && ltb j (at + suc (length offs))) ≡ true = ground arith in
            rw here ((rw y at ih) ∙ ap u (ground arith))
        | inr n ↦
            let here : (leb at j && ltb j (at + suc (length offs))) ≡ false = ground arith in
            rw here ((rw n at ih) ∙ update_ne out at _ j ne)
      ]
    ]

word : (v : ℕ) → v < 2 ^ 16 → v % 256 + 0x100 * (v / 256 % 256) ≡ v
word v h = omega arith

-- What lfn_put leaves of an entry, and what it writes.
pub lfn_put-Carries :
    (e : Field) (u : Units) → ((k : ℕ) → u k < 2 ^ 16) → Carries lfn_off (lfn_put e u) u 0
unfolding lfn_put put_loop
lfn_put-Carries e u h = (
  word (u 0) (h 0),
  (
    word (u 1) (h 1),
    (
      word (u 2) (h 2),
      (
        word (u 3) (h 3),
        (
          word (u 4) (h 4),
          (
            word (u 5) (h 5),
            (
              word (u 6) (h 6),
              (
                word (u 7) (h 7),
                (
                  word (u 8) (h 8),
                  (
                    word (u 9) (h 9),
                    (word (u 10) (h 10), (word (u 11) (h 11), (word (u 12) (h 12), tt))),
                  ),
                ),
              ),
            ),
          ),
        ),
      ),
    ),
  ),
)

abbrev pub Same32 : Field → Field → Type 0
Same32 d e = (j : ℕ) → j < 32 → d j ≡ e j

Carries-same :
    (offs : List ℕ) (d e : Field) (u : Units) (k : ℕ)
    → All (λ o. o + 1 < 32) offs
    → Same32 d e
    → Carries offs e u k
    → Carries offs d u k
Carries-same [] d e u k inside same c = tt
Carries-same (o ∷ offs) d e u k inside same c = (
  omega (arith, same o (omega (arith, inside.0)), same (o + 1) inside.0, c.0),
  Carries-same offs d e u (k + 1) inside.1 same c.1,
)

-- The units of an entry that lfn_put wrote, as lfn_get takes them out of its thirty-two bytes.
pub lfn_get-lfn_put :
    (d e : Field) (u out : Units) (at j : ℕ)
    → ((k : ℕ) → u k < 2 ^ 16)
    → Same32 d (lfn_put e u)
    → lfn_get d out at j ≡ (if leb at j && ltb j (at + lfn_chars) then u (j - at) else out j)
unfolding lfn_get
lfn_get-lfn_put d e u out at j h same =
    let c = Carries-same lfn_off d (lfn_put e u) u 0 (omega arith) same (lfn_put-Carries e u h) in
    get_loop-at lfn_off d out u at 0 j c
    ∙ ap (λ n. if leb at j && ltb j (at + lfn_chars) then u n else out j) (omega arith)
