-- ===== src/Fat/Contents.antt =====
-- fat16_read of src/fat16.c: what is read of a file are the sectors of its chain, one after another.
use rvos.Common.{
  ℕ, zero, suc, ◌+◌, ◌-◌, ◌%◌, ◌^◌, ◌≤◌, ◌<◌, min, ◌≡◌, refl, sym, ap, ◌∙◌, inl, inr, true, false,
  some, List, [], ◌∷◌, ◌++◌, length, length-append, length-take, take, ltb, ◌==◌, arith, Bool-cases,
  ==_iff,
}
use rvos.Text.{Str}
use rvos.Fat.{Volume, Sector, secsz, rd16, rd32, cluster_lba}
use rvos.Fat.Entry.{UsableVolume, entry}
use rvos.Fat.Table.{blk_read-readable, fat_next-entry}
use rvos.Fat.Chain.{Linked}
use rvos.Fat.Scan.{Found}
use rvos.Fat.Files.{file_entry, sector_bytes, read_sectors, read_loop, read_file, fat16_read}

take_none : (n : ℕ) → take {A = ℕ} n [] ≡ []
take_none zero = refl
take_none (suc n) = refl

take-append : (n : ℕ) (xs ys : List ℕ) → take n (xs ++ ys) ≡ take n xs ++ take (n - length xs) ys
take-append n [] ys = rw (take_none n) (ap (λ k. take k ys) (omega arith))
take-append zero (x ∷ xs) ys =
    let e : 0 ≡ 0 - suc (length xs) = omega arith in ap (λ k. take k ys) e
take-append (suc n) (x ∷ xs) ys =
    ap (λ l. x ∷ l) (take-append n xs ys ∙ ap (λ k. take n xs ++ take k ys) (omega arith))

sector_bytes-length : (n j : ℕ) (b : Sector) → length (sector_bytes n j b) ≡ n
unfolding sector_bytes
sector_bytes-length zero j b = refl
sector_bytes-length (suc n) j b = ap suc (sector_bytes-length n (j + 1) b)

take-sector_bytes :
    (n m j : ℕ) (b : Sector) → take n (sector_bytes m j b) ≡ sector_bytes (min n m) j b
unfolding sector_bytes
take-sector_bytes zero m j b =
    let none_left : 0 ≡ min 0 m = omega arith in ap (λ k. sector_bytes k j b) none_left
take-sector_bytes (suc n) zero j b =
    let none_left : 0 ≡ min (suc n) 0 = omega arith in ap (λ k. sector_bytes k j b) none_left
take-sector_bytes (suc n) (suc m) j b =
    let both : suc (min n m) ≡ min (suc n) (suc m) = omega arith in
    ap (λ l. b j ∷ l) (take-sector_bytes n m (j + 1) b) ∙ ap (λ k. sector_bytes k j b) both

-- The bytes of `left` sectors from `lba` on.
unfoldable pub sectors_data : ℕ → Volume → ℕ → List ℕ
sectors_data zero v lba = []
sectors_data (suc left) v lba =
    sector_bytes secsz 0 (v.disk lba) ++ sectors_data left v ((lba + 1) % 2 ^ 32)

-- The sectors can be read.
abbrev pub SectorsReadable : ℕ → Volume → ℕ → Type 0
SectorsReadable zero v lba = Unit
SectorsReadable (suc left) v lba =
    (v.readable lba ≡ true) × SectorsReadable left v ((lba + 1) % 2 ^ 32)

read_sectors-data :
    (left : ℕ) (v : Volume) (lba want : ℕ)
    → SectorsReadable left v lba
    → read_sectors left v lba want ≡ (take want (sectors_data left v lba), true)
unfolding read_sectors sectors_data
read_sectors-data zero v lba want r = ap (λ l. (l, true)) (sym (take_none want))
read_sectors-data (suc left) v lba want r =
    let next = (lba + 1) % 2 ^ 32 in
    let rest = sectors_data left v next in
    let first = sector_bytes secsz 0 (v.disk lba) in
    let split : take want (first ++ rest)
        ≡ sector_bytes (min want secsz) 0 (v.disk lba) ++ take (want - secsz) rest =
      take-append want first rest
      ∙ ap (λ l. l ++ take (want - length first) rest) (take-sector_bytes want secsz 0 (v.disk lba))
      ∙ ap (λ n. sector_bytes (min want secsz) 0 (v.disk lba) ++ take (want - n) rest)
          (sector_bytes-length secsz 0 (v.disk lba)) in
    let less : want - min want secsz ≡ want - secsz = omega arith in
    elim (Bool-cases (want == 0)) [
      | inl y ↦
          let e : want ≡ 0 = (==_iff want 0).0 y in
          rw y (ap (λ n. (take n (first ++ rest), true)) (sym e))
      | inr n ↦
          rw
            (
              n,
              blk_read-readable v lba r.0,
              read_sectors-data left v next (want - min want secsz) r.1,
              less,
            )
            (ap (λ l. (l, true)) (sym split))
    ]

-- The bytes of the clusters of a chain.
unfoldable pub chain_data : Volume → List ℕ → List ℕ
chain_data v [] = []
chain_data v (c ∷ cs) = sectors_data v.fs.sec_per_clus v (cluster_lba v.fs c) ++ chain_data v cs

abbrev pub ChainReadable : Volume → List ℕ → Type 0
ChainReadable v [] = Unit
ChainReadable v (c ∷ cs) =
    SectorsReadable v.fs.sec_per_clus v (cluster_lba v.fs c) × ChainReadable v cs

sectors_data-length : (left : ℕ) (v : Volume) (lba : ℕ) → left ≤ length (sectors_data left v lba)
unfolding sectors_data
sectors_data-length zero v lba = omega arith
sectors_data-length (suc left) v lba =
    let next = (lba + 1) % 2 ^ 32 in
    omega (
      arith,
      sectors_data-length left v next,
      length-append (sector_bytes secsz 0 (v.disk lba)) (sectors_data left v next),
      sector_bytes-length secsz 0 (v.disk lba),
    )

read_loop-data :
    (rounds : ℕ) (v : Volume) (clus : ℕ) (chain : List ℕ) (want : ℕ)
    → UsableVolume v
    → 0 < v.fs.sec_per_clus
    → Linked v.fs v.disk clus chain
    → ChainReadable v chain
    → want ≤ rounds
    → read_loop rounds v clus want ≡ take want (chain_data v chain)
unfolding read_loop chain_data
read_loop-data zero v clus chain want u some_sec l r enough =
    let e : 0 ≡ want = omega arith in ap (λ n. take n (chain_data v chain)) e
read_loop-data (suc rounds) v clus [] want u some_sec l r enough = rw l (sym (take_none want))
read_loop-data (suc rounds) v clus (c ∷ cs) want u some_sec l r enough =
    let mine = sectors_data v.fs.sec_per_clus v (cluster_lba v.fs c) in
    let lba : cluster_lba v.fs clus ≡ cluster_lba v.fs c = ap (cluster_lba v.fs) l.0 in
    let got : read_sectors v.fs.sec_per_clus v (cluster_lba v.fs clus) want
        ≡ (take want mine, true) =
      ap (λ n. read_sectors v.fs.sec_per_clus v n want) lba
      ∙ read_sectors-data v.fs.sec_per_clus v (cluster_lba v.fs c) want r.0 in
    let next = fat_next-entry v clus u l.2 in
    let size = length-take want mine in
    let some_byte = sectors_data-length v.fs.sec_per_clus v (cluster_lba v.fs c) in
    let less : want - length (take want mine) ≡ want - length mine = omega (arith, size) in
    elim (Bool-cases (ltb 0 want)) [
      | inr none_left ↦
          let e : want ≡ 0 = ground arith in
          rw (l.1, none_left) (ap (λ n. take n (mine ++ chain_data v cs)) (sym e))
      | inl more ↦
          let rest =
            read_loop-data rounds v (entry v.fs v.disk clus) cs (want - length (take want mine)) u
              some_sec l.3 r.1 (ground arith) in
          rw (got, l.1, more, next, rest, less) (sym (take-append want mine (chain_data v cs)))
    ]

-- Where a path names a file of a size that the buffer has room for, the table can be used (it has a
-- copy and every sector of every copy can be read and written), a cluster has a sector at least and
-- the clusters of the file are a chain of sectors that can be read, fat16_read answers the first
-- bytes of the chain, as many as the size says, or all of them where the chain is shorter.
pub fat16_read-data :
    (v w : Volume) (path : Str) (f : Found) (maxlen : ℕ) (chain : List ℕ)
    → file_entry v path ≡ (some f, w)
    → rd32 f.ent 28 ≤ maxlen
    → UsableVolume w
    → 0 < w.fs.sec_per_clus
    → Linked w.fs w.disk (rd16 f.ent 26) chain
    → ChainReadable w chain
    → fat16_read v path maxlen ≡ (some (take (rd32 f.ent 28) (chain_data w chain)), w)
unfolding fat16_read read_file
fat16_read-data v w path f maxlen chain file room u some_sec l r =
    let fits : ltb maxlen (rd32 f.ent 28) ≡ false = ground arith in
    let bytes =
      read_loop-data (rd32 f.ent 28) w (rd16 f.ent 26) chain (rd32 f.ent 28) u some_sec l r
        (omega arith) in
    ap (read_file maxlen) file ∙ rw (fits, bytes) refl
