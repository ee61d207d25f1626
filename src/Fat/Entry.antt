-- ===== src/Fat/Entry.antt =====
-- The entries of the file allocation table of src/fat16.c, in the sectors of the disk: where the
-- entry of a cluster stands, and what writing it changes.
use rvos.Common.{
  ℕ, ◌+◌, ◌*◌, ◌/◌, ◌%◌, ◌^◌, ◌≤◌, ◌<◌, ◌≡◌, ◌≢◌, ap, ◌∙◌, subst, ◌⊎◌, inl, inr, Bool, true, ◌&&◌,
  ◌==◌, if◌then◌else◌, update, arith, ==_refl, ==_ne, update_self, update_ne,
}
use native.Mathlib.Nat.{mul-le-mul_right}
use native.Mathlib.Decide.{ℕ_discrete}
use rvos.Fat.{secsz, Sector, Disk, Geometry, Volume, rd16, wr16}

-- Every sector of the table can be read and written, and there is a copy of it.
pub record Usable (fs : Geometry) (readable writable : ℕ → Bool) : Type 0 where
  pub a_copy : 0 < fs.num_fats
  pub reads :
      (f s : ℕ)
      → f < fs.num_fats
      → s < fs.sec_per_fat
      → readable (fs.fat_start + f * fs.sec_per_fat + s) ≡ true
  pub writes :
      (f s : ℕ)
      → f < fs.num_fats
      → s < fs.sec_per_fat
      → writable (fs.fat_start + f * fs.sec_per_fat + s) ≡ true

abbrev pub UsableVolume : Volume → Type 0
UsableVolume v = Usable v.fs v.readable v.writable

abbrev pub table_sector : Geometry → ℕ → ℕ → ℕ
table_sector fs f clus = fs.fat_start + f * fs.sec_per_fat + clus * 2 / secsz

-- What the entry of a cluster says, in the copy `f`.
abbrev pub entry_in : Geometry → Disk → ℕ → ℕ → ℕ
entry_in fs d f clus = rd16 (d (table_sector fs f clus)) (clus * 2 % secsz)

-- The first copy is the one that is read.
abbrev pub entry : Geometry → Disk → ℕ → ℕ
entry fs d clus = entry_in fs d 0 clus

-- One entry is written in one sector of the disk.
unfoldable pub put_entry : Disk → ℕ → ℕ → ℕ → Disk
put_entry d lba off val = update d lba (wr16 (d lba) off val)

-- `c` is a cluster that the table has an entry for.
abbrev pub InTable : Geometry → ℕ → Type 0
InTable fs c = c < fs.sec_per_fat * 256

pub rd16-wr16 : (b : Sector) (i v : ℕ) → v < 2 ^ 16 → rd16 (wr16 b i v) i ≡ v
rd16-wr16 b i v bound = ground arith

pub rd16-wr16_apart :
    (b : Sector) (i v j : ℕ) → (i + 1 < j) ⊎ (j + 1 < i) → rd16 (wr16 b i v) j ≡ rd16 b j
rd16-wr16_apart b i v j apart = ground arith

pub rd16-put_entry :
    (d : Disk) (lba off val : ℕ) → val < 2 ^ 16 → rd16 (put_entry d lba off val lba) off ≡ val
unfolding put_entry
rd16-put_entry d lba off val bound =
    ap (λ b. rd16 b off) (update_self d lba _) ∙ rd16-wr16 (d lba) off val bound

pub rd16-put_entry_apart :
    (d : Disk) (lba off val there at : ℕ)
    → (lba ≢ there) ⊎ ((off + 1 < at) ⊎ (at + 1 < off))
    → rd16 (put_entry d lba off val there) at ≡ rd16 (d there) at
unfolding put_entry
rd16-put_entry_apart d lba off val there at (inl ne) =
    ap (λ b. rd16 b at) (update_ne d lba _ there ne)
rd16-put_entry_apart d lba off val there at (inr apart) = elim (ℕ_discrete lba there) [
  | no ne ↦ ap (λ b. rd16 b at) (update_ne d lba _ there ne)
  | yes e ↦
      subst (λ t. rd16 (update d lba (wr16 (d lba) off val) t) at ≡ rd16 (d t) at) e
        (ap (λ b. rd16 b at) (update_self d lba _) ∙ rd16-wr16_apart (d lba) off val at apart)
]

pub lt_or_gt : (a b : ℕ) → a ≢ b → (a < b) ⊎ (b < a)
lt_or_gt a b ne = ground arith

-- Sectors of two copies of the table are two sectors.
pub copies_apart : (n f g s r : ℕ) → s < n → r < n → f < g → f * n + s < g * n + r
copies_apart n f g s r hs hr less =
    let step : (f + 1) * n ≤ g * n = mul-le-mul_right n (omega arith) in
    let split : (f + 1) * n ≡ f * n + n = omega arith in omega arith

pub table_sector_apart :
    (fs : Geometry) (f g clus c : ℕ)
    → InTable fs clus
    → InTable fs c
    → f ≢ g
    → table_sector fs f clus ≢ table_sector fs g c
table_sector_apart fs f g clus c inside there ne e =
    let s : clus * 2 / secsz < fs.sec_per_fat = omega arith in
    let r : c * 2 / secsz < fs.sec_per_fat = omega arith in
    elim (lt_or_gt f g ne) [
      | inl less ↦ omega (arith, copies_apart fs.sec_per_fat f g _ _ s r less, e)
      | inr more ↦ omega (arith, copies_apart fs.sec_per_fat g f _ _ r s more, e)
    ]

pub entries_apart :
    (fs : Geometry) (f clus c : ℕ)
    → clus ≢ c
    → (table_sector fs f clus ≢ table_sector fs f c)
      ⊎ ((clus * 2 % secsz + 1 < c * 2 % secsz) ⊎ (c * 2 % secsz + 1 < clus * 2 % secsz))
entries_apart fs f clus c ne = elim (ℕ_discrete (clus / 256) (c / 256)) [
  | yes same ↦
      inr
        (elim (lt_or_gt clus c ne) [ inl less ↦ inl (omega arith) | inr more ↦ inr (omega arith) ])
  | no other ↦ inl (λ e. other (omega (arith, e)))
]

pub entry_in-put_entry :
    (fs : Geometry) (d : Disk) (f clus val g c : ℕ)
    → InTable fs clus
    → InTable fs c
    → val < 2 ^ 16
    → entry_in fs (put_entry d (table_sector fs f clus) (clus * 2 % secsz) val) g c
      ≡ (if (f == g) && (clus == c) then val else entry_in fs d g c)
entry_in-put_entry fs d f clus val g c inside there bound = elim (ℕ_discrete f g) [
  | no ne ↦
      let apart = table_sector_apart fs f g clus c inside there ne in
      rw (==_ne f g ne) (rd16-put_entry_apart d _ _ val _ _ (inl apart))
  | yes same ↦
      subst
        (λ g.
          entry_in fs (put_entry d (table_sector fs f clus) (clus * 2 % secsz) val) g c
          ≡ (if (f == g) && (clus == c) then val else entry_in fs d g c))
        same
        (elim (ℕ_discrete clus c) [
          | no ne ↦
              rw (==_refl f, ==_ne clus c ne)
                (rd16-put_entry_apart d _ _ val _ _ (entries_apart fs f clus c ne))
          | yes e ↦
              subst
                (λ c.
                  entry_in fs (put_entry d (table_sector fs f clus) (clus * 2 % secsz) val) f c
                  ≡ (if (f == f) && (clus == c) then val else entry_in fs d f c))
                e (rw (==_refl f, ==_refl clus) (rd16-put_entry d _ _ val bound))
        ])
]
