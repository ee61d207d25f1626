-- ===== src/Fat/Alloc.antt =====
-- fat_alloc_from of src/fat16.c: the search for a free cluster.
use rvos.Common.{
  ℕ, zero, suc, ◌+◌, ◌-◌, ◌*◌, ◌/◌, ◌%◌, ◌^◌, ◌≤◌, ◌<◌, max, ◌≡◌, ◌≢◌, refl, sym, ap, subst, ◌∙◌,
  inl, inr, ◌⊎◌, some, ltb, leb, ◌==◌, if◌then◌else◌, arith, Bool-cases, ==_iff,
}
use mathlib.Core.Bool.{true≢false}
use native.Mathlib.Decide.{ℕ_discrete}
use rvos.Fat.{
  secsz, Sector, Volume, rd16, blk_read, fat_free, alloc_loop, fat_entries, fat_alloc_from,
}
use rvos.Fat.Entry.{UsableVolume, entry, InTable}
use rvos.Fat.Table.{blk_read-readable}

-- No cluster from `a` on and below `b` is free.
abbrev pub NoneFree : Volume → ℕ → ℕ → Type 0
NoneFree v a b = (k : ℕ) → a ≤ k → k < b → entry v.fs v.disk k ≢ fat_free

-- The first free cluster from `a` on and below `b`, or 0 where none is free.
abbrev pub IsFirstFree : Volume → ℕ → ℕ → ℕ → Type 0
IsFirstFree v a b r =
    ((r ≡ 0) × NoneFree v a b)
    ⊎ ((a ≤ r) × (r < b) × (entry v.fs v.disk r ≡ fat_free) × NoneFree v a r)

table_read :
    (v : Volume) (c : ℕ)
    → UsableVolume v
    → InTable v.fs c
    → ((b : Sector) × (blk_read v (v.fs.fat_start + c * 2 / secsz) ≡ some b)
        × (rd16 b (c * 2 % secsz) ≡ entry v.fs v.disk c))
table_read v c u inside =
    let below : c * 2 / secsz < v.fs.sec_per_fat = omega arith in
    let s : v.fs.fat_start + c * 2 / secsz ≡ v.fs.fat_start + 0 * v.fs.sec_per_fat + c * 2 / secsz =
      omega arith in
    let r = ap v.readable s ∙ u.reads 0 (c * 2 / secsz) u.a_copy below in
    (
      v.disk (v.fs.fat_start + c * 2 / secsz),
      blk_read-readable v (v.fs.fat_start + c * 2 / secsz) r,
      ap (λ n. rd16 (v.disk n) (c * 2 % secsz)) s,
    )

from_next :
    (v : Volume) (c b r : ℕ)
    → entry v.fs v.disk c ≢ fat_free
    → IsFirstFree v (c + 1) b r
    → IsFirstFree v c b r
from_next v c b r not_c (inl (e, none_free)) = inl (
  e,
  λ k low high. elim (ℕ_discrete k c) [
    | yes same ↦ subst (λ n. entry v.fs v.disk n ≢ fat_free) (sym same) not_c
    | no ne ↦ none_free k (omega arith) high
  ],
)
from_next v c b r not_c (inr (low, high, free, none_free)) = inr (
  omega arith,
  high,
  free,
  λ k above below. elim (ℕ_discrete k c) [
    | yes same ↦ subst (λ n. entry v.fs v.disk n ≢ fat_free) (sym same) not_c
    | no ne ↦ none_free k (omega arith) below
  ],
)

alloc_loop-IsFirstFree :
    (left c b : ℕ) (v : Volume)
    → UsableVolume v
    → c + left ≡ b
    → b ≤ v.fs.sec_per_fat * 256
    → b ≤ 2 ^ 16
    → IsFirstFree v c b (alloc_loop left c v)
unfolding alloc_loop
alloc_loop-IsFirstFree zero c b v u sum inside small = inl (refl, λ k low high e. omega arith)
alloc_loop-IsFirstFree (suc left) c b v u sum inside small =
    let t = table_read v c u (omega arith) in
    elim (Bool-cases (rd16 t.0 (c * 2 % secsz) == fat_free)) [
      | inl free ↦
          let low : c % 2 ^ 16 ≡ c = omega arith in
          let zero_c : entry v.fs v.disk c ≡ fat_free = sym t.2 ∙ (==_iff _ fat_free).0 free in
          rw (alloc_loop, t.1, free, low)
            (inr (omega arith, omega arith, zero_c, λ k above below e. omega arith))
      | inr taken ↦
          let not_c : entry v.fs v.disk c ≢ fat_free =
            λ e. true≢false (sym ((==_iff _ fat_free).1 (t.2 ∙ e)) ∙ taken) in
          let rest = alloc_loop-IsFirstFree left (c + 1) b v u (omega arith) inside small in
          rw (alloc_loop, t.1, taken) (from_next v c b (alloc_loop left (c + 1) v) not_c rest)
    ]

search :
    (v : Volume) (a : ℕ)
    → UsableVolume v
    → v.fs.sec_per_fat ≤ 256
    → IsFirstFree v a (v.fs.sec_per_fat * 256) (alloc_loop (fat_entries v.fs - a) a v)
unfolding alloc_loop
search v a u small = elim (Bool-cases (leb (v.fs.sec_per_fat * 256) a)) [
  | inl past ↦
      let none_left : fat_entries v.fs - a ≡ 0 = ground arith in
      inl (ap (λ n. alloc_loop n a v) none_left, λ k low high e. ground arith)
  | inr some_left ↦
      alloc_loop-IsFirstFree (fat_entries v.fs - a) a (v.fs.sec_per_fat * 256) v u (ground arith)
        (omega arith) (omega arith)
]

-- On a volume whose table can be used (it has a copy and every sector of every copy can be read and
-- written) and has at most 65536 entries, fat_alloc_from answers the first free cluster from `from`
-- on, 2 at least, or 0 where none of them is free.
pub fat_alloc_from-IsFirstFree :
    (v : Volume) (from : ℕ)
    → UsableVolume v
    → v.fs.sec_per_fat ≤ 256
    → IsFirstFree v (max 2 from) (v.fs.sec_per_fat * 256) (fat_alloc_from v from)
unfolding fat_alloc_from
fat_alloc_from-IsFirstFree v from u small =
    let start : max 2 from ≡ (if ltb from 2 then 2 else from) = ground arith in
    subst
      (λ a. IsFirstFree v a (v.fs.sec_per_fat * 256) (
        alloc_loop (fat_entries v.fs - (if ltb from 2 then 2 else from))
          (if ltb from 2 then 2 else from) v))
      (sym start) (search v (if ltb from 2 then 2 else from) u small)
