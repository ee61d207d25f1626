-- ===== src/Fat/Slots.antt =====
-- src/fat16.c: the slots of a directory, through the one sector of it that is remembered.
use rvos.Common.{
  ℕ, zero, suc, ◌+◌, ◌*◌, ◌/◌, ◌%◌, ◌^◌, Bool, true, false, ◌||◌, not, Option, none, some, leb,
  ◌==◌, ◌!=◌, if◌then◌else◌,
}
use rvos.Fat.{Volume, blk_read, blk_write, fat_next, is_data, cluster_lba, copy_in}

abbrev pub slots_per_sec : ℕ
slots_per_sec = 16

abbrev pub Slot : Type 0
Slot = ℕ → ℕ

-- `skip` clusters further along the chain.
unfoldable pub dir_walk : ℕ → Volume → ℕ → Option ℕ
dir_walk zero v c = some c
dir_walk (suc skip) v c =
    let next = fat_next v c in
    let rest = dir_walk skip v next in if is_data next then rest else none

unfoldable pub dir_sector : Volume → ℕ → ℕ → Option ℕ
dir_sector v dir n =
    let per = v.fs.sec_per_clus in
    if dir == 0
    then if leb v.fs.root_sectors n then none else some (v.fs.root_start + n)
    else elim (dir_walk (n / per) v dir) [
      | none ↦ none
      | some c ↦ some ((cluster_lba v.fs c + n % per) % 2 ^ 32)
    ]

-- The sector is put in `dcache` unless it is there.
unfoldable pub fetch : Volume → ℕ → ℕ → Option ℕ × Volume
fetch v lba at =
    if not v.dcache_ok || (v.dcache_lba != lba)
    then elim (blk_read v lba) [
      | none ↦ (none, v)
      | some b ↦ (some at, record v { dcache_lba = lba; dcache = b; dcache_ok = true })
    ]
    else (some at, v)

-- Where the slot stands in `dcache`.
unfoldable pub slot_ptr : Volume → ℕ → ℕ → Option ℕ × Volume
slot_ptr v dir i = elim (dir_sector v dir (i / slots_per_sec)) [
  | none ↦ (none, v)
  | some lba ↦ fetch v lba (i % slots_per_sec * 32)
]

-- The bytes that the pointer leads to.
abbrev pub slot_at : Volume → ℕ → Slot
slot_at v at j = v.dcache (at + j)

-- The slot is changed where the pointer leads, and the remembered sector is written.
unfoldable pub put_at : Slot → Option ℕ × Volume → Bool × Volume
put_at ent (none, v) = (false, v)
put_at ent (some at, v) =
    let b = copy_in v.dcache at ent 32 in blk_write (record v { dcache = b }) v.dcache_lba b

unfoldable pub slot_put : Volume → ℕ → ℕ → Slot → Bool × Volume
slot_put v dir i ent = put_at ent (slot_ptr v dir i)
