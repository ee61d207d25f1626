-- ===== src/Fat/Files.antt =====
-- src/fat16.c: listing a directory, and reading a file. Where the source returns -1 the result is
-- `none`.
use rvos.Common.{
  ℕ, zero, suc, ◌+◌, ◌-◌, ◌/◌, ◌%◌, ◌^◌, min, Bool, true, false, ◌&&◌, Option, none, some, List, [],
  ◌∷◌, ◌++◌, length, ltb, ◌==◌, if◌then◌else◌,
}
use rvos.Text.{Str}
use rvos.Fat.{Volume, secsz, Sector, rd16, rd32, blk_read, fat_next, is_data, cluster_lba}
use rvos.Fat.Scan.{Scan, Found, dscan_start, dscan_next, dir_lookup}
use rvos.Fat.Paths.{as_dir, resolve_leaf}

-- struct dirent of src/fat16.h
pub record Dirent : Type 0 where
  pub name : Str
  pub size : ℕ
  pub is_dir : Bool

abbrev pub dirent_of : Found → Dirent
dirent_of f = record { name = f.name; size = rd32 f.ent 28; is_dir = f.ent 11 / 16 % 2 == 1 }

unfoldable pub list_loop : ℕ → Volume → Scan → List Dirent × Volume
list_loop zero v s = ([], v)
list_loop (suc room) v s =
    let (next, s1, v1) = dscan_next v s in
    elim next [
      | none ↦ ([], v1)
      | some f ↦ let (rest, v2) = list_loop room v1 s1 in (dirent_of f ∷ rest, v2)
    ]

pub fat16_list : Volume → Str → ℕ → Option (List Dirent) × Volume
fat16_list v path max =
    let (dir, v1) = as_dir v path in
    elim dir [
      | none ↦ (none, v1)
      | some d ↦ let (out, v2) = list_loop max v1 (dscan_start d) in (some out, v2)
    ]

-- The entry of a file: a directory is none.
unfoldable pub file_entry : Volume → Str → Option Found × Volume
file_entry v path =
    let (place, v1) = resolve_leaf v path in
    elim place [
      | none ↦ (none, v1)
      | some p ↦
          let (found, v2) = dir_lookup v1 p.0 p.1 in
          elim found [
            | none ↦ (none, v2)
            | some f ↦ if f.ent 11 / 16 % 2 == 1 then (none, v2) else (some f, v2)
          ]
    ]

-- The bits of an int.
pub fat16_size : Volume → Str → Option ℕ × Volume
fat16_size v path =
    let (file, v1) = file_entry v path in
    elim file [ none ↦ (none, v1) | some f ↦ (some (rd32 f.ent 28), v1) ]

-- The first `n` bytes of a sector, from `j` on.
unfoldable pub sector_bytes : ℕ → ℕ → Sector → List ℕ
sector_bytes zero j b = []
sector_bytes (suc n) j b = b j ∷ sector_bytes n (j + 1) b

-- The sectors of a cluster, while bytes are wanted; `false` where one of them cannot be read.
unfoldable pub read_sectors : ℕ → Volume → ℕ → ℕ → List ℕ × Bool
read_sectors zero v lba want = ([], true)
read_sectors (suc left) v lba want =
    let chunk = min want secsz in
    let (rest, good) = read_sectors left v ((lba + 1) % 2 ^ 32) (want - chunk) in
    if want == 0 then ([], true) else elim (blk_read v lba) [
      | none ↦ ([], false)
      | some b ↦ (sector_bytes chunk 0 b ++ rest, good)
    ]

-- By the rounds that are left: a cluster has a sector at least, so that each reads a byte.
unfoldable pub read_loop : ℕ → Volume → ℕ → ℕ → List ℕ
read_loop zero v clus want = []
read_loop (suc rounds) v clus want =
    let (bytes, good) = read_sectors v.fs.sec_per_clus v (cluster_lba v.fs clus) want in
    let rest = read_loop rounds v (fat_next v clus) (want - length bytes) in
    if is_data clus && ltb 0 want then if good then bytes ++ rest else bytes else []

-- What is read of a file that has been found; one that does not fit is an error.
unfoldable pub read_file : ℕ → Option Found × Volume → Option (List ℕ) × Volume
read_file maxlen (none, v) = (none, v)
read_file maxlen (some f, v) =
    let size = rd32 f.ent 28 in
    if ltb maxlen size then (none, v) else (some (read_loop size v (rd16 f.ent 26) size), v)

-- The bytes that are read, as many as the source's result says.
unfoldable pub fat16_read : Volume → Str → ℕ → Option (List ℕ) × Volume
fat16_read v path maxlen = read_file maxlen (file_entry v path)
