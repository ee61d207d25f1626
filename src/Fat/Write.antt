-- ===== src/Fat/Write.antt =====
-- src/fat16.c: the operations that change the volume. Where the source returns -1 the result is
-- `none` or `false`.
use rvos.Common.{
  ℕ, zero, suc, ◌+◌, ◌-◌, ◌*◌, ◌/◌, ◌%◌, ◌^◌, Bool, true, false, ◌&&◌, Option, none, some, List, [],
  ◌∷◌, length, take, drop, get_or, leb, ◌==◌, if◌then◌else◌, update,
}
use rvos.Text.{Str}
use rvos.Fat.{
  Volume, secsz, Sector, rd16, wr16, wr32, blk_write, fat_set, fat_free, fat_eoc, fat_alloc_from,
  fat_free_chain, cluster_lba,
}
use rvos.Fat.Names.{Field, blanks}
use rvos.Fat.Slots.{slot_ptr, slot_at, slot_put}
use rvos.Fat.Scan.{scan_fuel, Scan, Found, dscan_start, dscan_next, dir_lookup}
use rvos.Fat.Paths.{resolve_leaf}
use rvos.Fat.Create.{set_entry, blank_entry, dir_create}

-- A sector that starts with the bytes, and zeroes behind them.
abbrev pub sector_of : List ℕ → Sector
sector_of bytes j = get_or bytes j 0

-- The sectors of one cluster, and what is left to write.
unfoldable pub write_sectors : ℕ → Volume → ℕ → List ℕ → (Bool × List ℕ) × Volume
write_sectors zero v lba bytes = ((true, bytes), v)
write_sectors (suc left) v lba bytes =
    let (good, v1) = blk_write v lba (sector_of (take secsz bytes)) in
    let rest = write_sectors left v1 ((lba + 1) % 2 ^ 32) (drop secsz bytes) in
    if good then rest else ((false, bytes), v1)

-- The clusters that are still needed. The result is the first of all; 0 also where none is needed.
unfoldable pub write_loop : ℕ → Volume → List ℕ → ℕ → ℕ → ℕ → Option ℕ × Volume
write_loop zero v bytes first prev search = (some first, v)
write_loop (suc need) v bytes first prev search =
    let c = fat_alloc_from v search in
    let claimed = fat_set v c fat_eoc in
    let linked = if prev == 0 then claimed else fat_set claimed prev c in
    let first1 = if prev == 0 then c else first in
    let ((good, left), v1) = write_sectors v.fs.sec_per_clus linked (cluster_lba v.fs c) bytes in
    let rest = write_loop need v1 left first1 c ((c + 1) % 2 ^ 16) in
    if c == 0
    then (none, fat_free_chain v first)
    else if good
    then rest
    else (none, fat_free_chain v1 first1)

abbrev pub clusters_for : Volume → ℕ → ℕ
clusters_for v len = let clus_size = v.fs.sec_per_clus * secsz in (len + clus_size - 1) / clus_size

-- The name of a chain that has been written: an entry that is there is changed, or one is made.
pub name_chain : Volume → ℕ → Str → Option Found → ℕ → ℕ → Bool × Volume
name_chain v dir leaf (some f) first len =
    let old = rd16 f.ent 26 in
    let (good, v1) = slot_put v dir f.slot (wr32 (wr16 f.ent 26 first) 28 len) in
    if good
    then if leb 2 old then (true, fat_free_chain v1 old) else (true, v1)
    else (false, fat_free_chain v1 first)
name_chain v dir leaf none first len =
    let (made, v1) = dir_create v dir leaf 0x20 first len in
    elim made [ none ↦ (false, fat_free_chain v1 first) | some slot ↦ (true, v1) ]

-- A length that is negative as an int is refused. The result is the length.
pub fat16_write : Volume → Str → List ℕ → Option ℕ × Volume
fat16_write v path bytes =
    let len = length bytes in
    let (place, v1) = resolve_leaf v path in
    if leb (2 ^ 31) len then (none, v) else elim place [
      | none ↦ (none, v1)
      | some p ↦
          let (old, v2) = dir_lookup v1 p.0 p.1 in
          let dirs : Bool = elim old [ none ↦ false | some f ↦ f.ent 11 / 16 % 2 == 1 ] in
          let (chain, v3) = write_loop (clusters_for v2 len) v2 bytes 0 0 2 in
          let named : Option ℕ × Volume = elim chain [
            | none ↦ (none, v3)
            | some first ↦
                let (good, v4) = name_chain v3 p.0 p.1 old first len in
                if good then (some len, v4) else (none, v4)
          ] in
          if dirs then (none, v2) else named
    ]

-- The slots from `at` on, by how many are left.
unfoldable pub erase_loop : ℕ → Volume → ℕ → ℕ → Bool × Volume
erase_loop zero v dir at = (true, v)
erase_loop (suc left) v dir at =
    let (p, v1) = slot_ptr v dir at in
    elim p [
      | none ↦ (false, v1)
      | some off ↦
          let (good, v2) = slot_put v1 dir at (update (slot_at v1 off) 0 0xe5) in
          let rest = erase_loop left v2 dir (at + 1) in if good then rest else (false, v2)
    ]

pub dir_erase : Volume → ℕ → ℕ → ℕ → Bool × Volume
dir_erase v dir chain slot = erase_loop (slot + 1 - chain) v dir chain

-- The names `.` and `..`.
unfoldable pub is_dots : Str → Bool
is_dots [] = false
is_dots (a ∷ []) = a == b'.'
is_dots (a ∷ b ∷ []) = (a == b'.') && (b == b'.')
is_dots (a ∷ b ∷ c ∷ s) = false

unfoldable pub empty_loop : ℕ → Volume → Scan → Bool × Volume
empty_loop zero v s = (true, v)
empty_loop (suc fuel) v s =
    let (next, s1, v1) = dscan_next v s in
    elim next [
      | none ↦ (true, v1)
      | some f ↦ let rest = empty_loop fuel v1 s1 in if is_dots f.name then rest else (false, v1)
    ]

pub fat16_remove : Volume → Str → Bool × Volume
fat16_remove v path =
    let (place, v1) = resolve_leaf v path in
    elim place [
      | none ↦ (false, v1)
      | some p ↦
          let (found, v2) = dir_lookup v1 p.0 p.1 in
          elim found [
            | none ↦ (false, v2)
            | some f ↦
                let first = rd16 f.ent 26 in
                let (empty, v3) : Bool × Volume =
                  if f.ent 11 / 16 % 2 == 1
                  then empty_loop scan_fuel v2 (dscan_start first)
                  else (true, v2) in
                let (erased, v4) = dir_erase v3 p.0 f.chain f.slot in
                if empty
                then if erased then (true, fat_free_chain v4 first) else (false, v4)
                else (false, v3)
          ]
    ]

-- Zeroes in every sector of a cluster.
unfoldable pub zero_sectors : ℕ → Volume → ℕ → Bool × Volume
zero_sectors zero v lba = (true, v)
zero_sectors (suc left) v lba =
    let (good, v1) = blk_write v lba (λ j. 0) in
    let rest = zero_sectors left v1 ((lba + 1) % 2 ^ 32) in if good then rest else (false, v1)

abbrev pub dot : Field
dot = update blanks 0 b'.'

abbrev pub dot_dot : Field
dot_dot = update dot 1 b'.'

-- A new directory in the cluster `c`: the entries about itself and its parent, then its name.
unfoldable pub fill_dir : Volume → ℕ → ℕ → Str → Bool × Volume
fill_dir v c dir leaf =
    let undo : Volume → Bool × Volume = λ w. (false, fat_set w c fat_free) in
    let (self, v1) = slot_put v c 0 (set_entry blank_entry dot 0x10 c 0) in
    let (parent, v2) = slot_put v1 c 1 (set_entry blank_entry dot_dot 0x10 dir 0) in
    let (made, v3) = dir_create v2 dir leaf 0x10 c 0 in
    let named : Bool × Volume = elim made [ none ↦ undo v3 | some slot ↦ (true, v3) ] in
    if self then if parent then named else undo v2 else undo v1

pub fat16_mkdir : Volume → Str → Bool × Volume
fat16_mkdir v path =
    let (place, v1) = resolve_leaf v path in
    elim place [
      | none ↦ (false, v1)
      | some p ↦
          let (taken, v2) = dir_lookup v1 p.0 p.1 in
          let c = fat_alloc_from v2 2 in
          let claimed = fat_set v2 c fat_eoc in
          let (good, v3) = zero_sectors v2.fs.sec_per_clus claimed (cluster_lba v2.fs c) in
          let filled = fill_dir (record v3 { dcache_ok = false }) c p.0 p.1 in
          let new : Bool × Volume =
            if c == 0
            then (false, v2)
            else if good
            then filled
            else (false, fat_set v3 c fat_free) in
          elim taken [ none ↦ new | some f ↦ (false, v2) ]
    ]
