-- ===== src/Fat/Table.antt =====
-- The file allocation table of src/fat16.c as fat_next and fat_set see it: one entry for each
-- cluster, in as many copies as the volume has.
use rvos.Common.{
  ℕ, zero, suc, ◌+◌, ◌*◌, ◌/◌, ◌%◌, ◌^◌, ◌≤◌, ◌<◌, ◌≡◌, refl, ap, ◌∙◌, true, ◌&&◌, some, ltb, leb,
  ◌==◌, if◌then◌else◌, update, arith,
}
use rvos.Fat.Entry.{
  UsableVolume, table_sector, entry_in, entry, put_entry, InTable, entry_in-put_entry,
}
use rvos.Fat.{
  secsz, Sector, Disk, Geometry, Volume, rd16, wr16, read_or_junk, blk_read, blk_write, fat_next,
  set_copies, fat_set,
}

-- The writes of fat_set, on the disk alone.
pub write_copies : ℕ → ℕ → Geometry → Disk → ℕ → ℕ → Disk
write_copies zero f fs d clus val = d
write_copies (suc left) f fs d clus val =
    let sec = table_sector fs f clus in
    write_copies left (f + 1) fs (put_entry d sec (clus * 2 % secsz) val) clus val

abbrev pub set_disk : Geometry → Disk → ℕ → ℕ → Disk
set_disk fs d clus val = write_copies fs.num_fats 0 fs d clus val

pub blk_read-readable :
    (v : Volume) (lba : ℕ) → v.readable lba ≡ true → blk_read v lba ≡ some (v.disk lba)
unfolding blk_read
blk_read-readable v lba r = rw r

pub blk_write-writable :
    (v : Volume) (lba : ℕ) (b : Sector)
    → v.writable lba ≡ true
    → (blk_write v lba b).1 ≡ record v { disk = update v.disk lba b }
unfolding blk_write
blk_write-writable v lba b w = rw w

pub set_copies-disk :
    (left f : ℕ) (v : Volume) (clus val : ℕ)
    → UsableVolume v
    → f + left ≤ v.fs.num_fats
    → InTable v.fs clus
    → set_copies left f v clus val ≡ record v { disk = write_copies left f v.fs v.disk clus val }
unfolding set_copies write_copies put_entry
set_copies-disk zero f v clus val u room inside = refl
set_copies-disk (suc left) f v clus val u room inside =
    let below : clus * 2 / secsz < v.fs.sec_per_fat = omega arith in
    let r = blk_read-readable v _ (u.reads f (clus * 2 / secsz) (omega arith) below) in
    let sec = table_sector v.fs f clus in
    let w =
      blk_write-writable v sec (wr16 (v.disk sec) (clus * 2 % secsz) val)
        (u.writes f (clus * 2 / secsz) (omega arith) below) in
    rw (set_copies, r, w) (set_copies-disk left (f + 1) _ clus val u (omega arith) inside)

pub fat_set-disk :
    (v : Volume) (clus val : ℕ)
    → UsableVolume v
    → InTable v.fs clus
    → fat_set v clus val ≡ record v { disk = set_disk v.fs v.disk clus val }
unfolding fat_set
fat_set-disk v clus val u inside = set_copies-disk v.fs.num_fats 0 v clus val u (omega arith) inside

pub read_or_junk-readable :
    (v : Volume) (lba : ℕ) → v.readable lba ≡ true → read_or_junk v lba ≡ v.disk lba
read_or_junk-readable v lba r = rw (read_or_junk, blk_read-readable v lba r)

pub fat_next-entry :
    (v : Volume) (clus : ℕ)
    → UsableVolume v
    → InTable v.fs clus
    → fat_next v clus ≡ entry v.fs v.disk clus
unfolding fat_next
fat_next-entry v clus u inside =
    let below : clus * 2 / secsz < v.fs.sec_per_fat = omega arith in
    let s : v.fs.fat_start + clus * 2 / secsz
        ≡ v.fs.fat_start + 0 * v.fs.sec_per_fat + clus * 2 / secsz =
      omega arith in
    let r = ap v.readable s ∙ u.reads 0 (clus * 2 / secsz) u.a_copy below in
    ap (λ b. rd16 b (clus * 2 % secsz)) (read_or_junk-readable v _ r)
    ∙ ap (λ n. rd16 (v.disk n) (clus * 2 % secsz)) s

pub entry_in-write_copies :
    (left f : ℕ) (fs : Geometry) (d : Disk) (clus val g c : ℕ)
    → InTable fs clus
    → InTable fs c
    → val < 2 ^ 16
    → entry_in fs (write_copies left f fs d clus val) g c
      ≡ (if (leb f g && ltb g (f + left)) && (clus == c) then val else entry_in fs d g c)
unfolding write_copies
entry_in-write_copies zero f fs d clus val g c inside there bound = ground arith
entry_in-write_copies (suc left) f fs d clus val g c inside there bound =
    let now = entry_in-put_entry fs d f clus val g c inside there bound in
    let later =
      entry_in-write_copies left (f + 1) fs
        (put_entry d (table_sector fs f clus) (clus * 2 % secsz) val) clus val g c inside there
        bound in
    later ∙ rw now (ground arith)

pub entry_in-set_disk :
    (fs : Geometry) (d : Disk) (clus val g c : ℕ)
    → InTable fs clus
    → InTable fs c
    → val < 2 ^ 16
    → g < fs.num_fats
    → entry_in fs (set_disk fs d clus val) g c ≡ (if clus == c then val else entry_in fs d g c)
entry_in-set_disk fs d clus val g c inside there bound copy =
    entry_in-write_copies fs.num_fats 0 fs d clus val g c inside there bound ∙ ground arith

-- On a volume whose table can be read and written, with at least one copy of it, fat_set sets the
-- entry of a cluster of the table to a 16-bit value in every copy, and changes no other entry.
fat_set-entry :
    (v : Volume) (clus val g c : ℕ)
    → UsableVolume v
    → InTable v.fs clus
    → InTable v.fs c
    → val < 2 ^ 16
    → g < v.fs.num_fats
    → entry_in v.fs (fat_set v clus val).disk g c
      ≡ (if clus == c then val else entry_in v.fs v.disk g c)
fat_set-entry v clus val g c u inside there bound copy =
    ap (λ w. entry_in v.fs w.disk g c) (fat_set-disk v clus val u inside)
    ∙ entry_in-set_disk v.fs v.disk clus val g c inside there bound copy
