-- ===== src/Fat.antt =====
-- src/fat16.c: a FAT16 volume. A sector is a function of the offset, the disk one of the sector's
-- number; the driver of the disk (src/srv_blk.c) is a table of the sectors that it reads and writes.
-- A result -1 is `none` or `false`.
pub mod Entry
pub mod Table
pub mod Alloc
pub mod Pigeonhole
pub mod Chain
pub mod Names
pub mod Texts
pub mod ShortNames
pub mod Unicode
pub mod Codes
pub mod Utf
pub mod Long
pub mod Pieces
pub mod Slots
pub mod Cached
pub mod Seen
pub mod Scan
pub mod Room
pub mod Paths
pub mod Components
pub mod Files
pub mod Contents
pub mod Create
pub mod Collect
pub mod Walk
pub mod Ends
pub mod Root
pub mod PutLong
pub mod Put
pub mod Write
pub mod Tests
use rvos.Common.{
  ℕ, zero, suc, ◌+◌, ◌-◌, ◌*◌, ◌/◌, ◌%◌, ◌^◌, Bool, true, false, ◌&&◌, ◌||◌, not, Option, none,
  some, ltb, leb, ◌==◌, ◌!=◌, if◌then◌else◌, update,
}

abbrev pub secsz : ℕ
secsz = 512

abbrev pub Sector : Type 0
Sector = ℕ → ℕ

abbrev pub Disk : Type 0
Disk = ℕ → Sector

-- The static `fs`, as fat16_init fills it.
pub record Geometry : Type 0 where
  pub bytes_per_sec : ℕ
  pub sec_per_clus : ℕ
  pub reserved : ℕ
  pub num_fats : ℕ
  pub root_entries : ℕ
  pub sec_per_fat : ℕ
  pub fat_start : ℕ
  pub root_start : ℕ
  pub root_sectors : ℕ
  pub data_start : ℕ
  pub ok : Bool

-- The volume with the device under it. `junk` is what a local buffer holds before a read that fails
-- and whose result the code does not look at.
pub record Volume : Type 0 where
  pub fs : Geometry
  pub disk : Disk
  pub readable : ℕ → Bool
  pub writable : ℕ → Bool
  pub junk : Sector
  -- The sector of a directory that is remembered.
  pub dcache_lba : ℕ
  pub dcache : Sector
  pub dcache_ok : Bool

abbrev pub rd16 : Sector → ℕ → ℕ
rd16 b i = b i + 0x100 * b (i + 1)

abbrev pub rd32 : Sector → ℕ → ℕ
rd32 b i = b i + 0x100 * b (i + 1) + 0x1_0000 * b (i + 2) + 0x100_0000 * b (i + 3)

abbrev pub wr16 : Sector → ℕ → ℕ → Sector
wr16 b i v = update (update b i (v % 256)) (i + 1) (v / 256 % 256)

abbrev pub wr32 : Sector → ℕ → ℕ → Sector
wr32 b i v =
    update
      (update (update (update b i (v % 256)) (i + 1) (v / 0x100 % 256)) (i + 2)
        (v / 0x1_0000 % 256))
      (i + 3) (v / 0x100_0000 % 256)

pub blk_read : Volume → ℕ → Option Sector
blk_read v lba = if v.readable lba then some (v.disk lba) else none

pub blk_write : Volume → ℕ → Sector → Bool × Volume
blk_write v lba b =
    if v.writable lba then (true, record v { disk = update v.disk lba b }) else (false, v)

-- A read whose result is not looked at.
abbrev pub read_or_junk : Volume → ℕ → Sector
read_or_junk v lba = elim (blk_read v lba) [ none ↦ v.junk | some b ↦ b ]

abbrev pub geometry_of : Sector → Geometry
geometry_of sec =
    let reserved = rd16 sec 14 in
    let root_entries = rd16 sec 17 in
    let root_start = reserved + sec 16 * rd16 sec 22 in
    let root_sectors = (root_entries * 32 + secsz - 1) / secsz in
    record {
      bytes_per_sec = rd16 sec 11;
      sec_per_clus = sec 13;
      reserved = reserved;
      num_fats = sec 16;
      root_entries = root_entries;
      sec_per_fat = rd16 sec 22;
      fat_start = reserved;
      root_start = root_start;
      root_sectors = root_sectors;
      data_start = root_start + root_sectors;
      ok = (rd16 sec 11 == secsz) && ltb 0 (sec 13);
    }

-- Without the boot signature nothing is changed.
pub fat16_init : Volume → Bool × Volume
fat16_init v =
    let sec = read_or_junk v 0 in
    let fs = geometry_of sec in
    if (sec 510 != 0x55) || (sec 511 != 0xaa) then (false, v) else (fs.ok, record v { fs = fs })

pub fat_next : Volume → ℕ → ℕ
fat_next v clus =
    let off = clus * 2 in rd16 (read_or_junk v (v.fs.fat_start + off / secsz)) (off % secsz)

-- One copy of the table after another, up to the first that cannot be read.
pub set_copies : ℕ → ℕ → Volume → ℕ → ℕ → Volume
set_copies zero f v clus val = v
set_copies (suc left) f v clus val =
    let off = clus * 2 in
    let sec = v.fs.fat_start + f * v.fs.sec_per_fat + off / secsz in
    elim (blk_read v sec) [
      | none ↦ v
      | some b ↦ set_copies left (f + 1) (blk_write v sec (wr16 b (off % secsz) val)).1 clus val
    ]

pub fat_set : Volume → ℕ → ℕ → Volume
fat_set v clus val = set_copies v.fs.num_fats 0 v clus val

abbrev pub fat_free : ℕ
fat_free = 0

abbrev pub fat_eoc : ℕ
fat_eoc = 0xffff

-- The search, by the clusters that are left.
pub alloc_loop : ℕ → ℕ → Volume → ℕ
alloc_loop zero c v = 0
alloc_loop (suc left) c v =
    let off = c * 2 in
    let rest = alloc_loop left (c + 1) v in
    elim (blk_read v (v.fs.fat_start + off / secsz)) [
      | none ↦ 0
      | some b ↦ if rd16 b (off % secsz) == fat_free then c % 2 ^ 16 else rest
    ]

-- The clusters that the table has entries for.
abbrev pub fat_entries : Geometry → ℕ
fat_entries fs = fs.sec_per_fat * secsz / 2

pub fat_alloc_from : Volume → ℕ → ℕ
fat_alloc_from v from =
    let c = if ltb from 2 then 2 else from in alloc_loop (fat_entries v.fs - c) c v

-- A cluster number that stands for data.
abbrev pub is_data : ℕ → Bool
is_data clus = leb 2 clus && ltb clus 0xfff8

-- Where the table can be written every round but the last frees a cluster, so that there are no more
-- rounds than cluster numbers, also on a chain that runs into itself.
pub free_loop : ℕ → Volume → ℕ → Volume
free_loop zero v clus = v
free_loop (suc rounds) v clus =
    let rest = free_loop rounds (fat_set v clus fat_free) (fat_next v clus) in
    if is_data clus then rest else v

pub fat_free_chain : Volume → ℕ → Volume
fat_free_chain v clus = free_loop (2 ^ 16) v clus

-- The first sector of a cluster, as a uint32. No cluster 0 or 1 has one, and for them it wraps.
abbrev pub cluster_lba : Geometry → ℕ → ℕ
cluster_lba fs c = (fs.data_start + (c + 2 ^ 32 - 2) * fs.sec_per_clus) % 2 ^ 32

-- `umemcpy(b + at, from, n)`
abbrev pub copy_in : Sector → ℕ → Sector → ℕ → Sector
copy_in b at from n j = if leb at j && ltb j (at + n) then from (j - at) else b j
