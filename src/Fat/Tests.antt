-- ===== src/Fat/Tests.antt =====
-- A small volume: two tables of a sector each, sixteen entries in the root, clusters of one sector.
use rvos.Common.{
  ℕ, ◌≡◌, refl, true, false, some, List, [], ◌∷◌, arith, inl, if◌then◌else◌, ◌==◌, max, ◌+◌, ◌*◌,
  ◌||◌, zero, suc,
}
use rvos.Common.{take}
use rvos.Fat.{rd32, blk_read}
use rvos.Fat.Names.{part, c_str, name_eq}
use rvos.Fat.Scan.{dir_lookup, lookup_loop, name_of}
use rvos.Fat.Paths.{resolve_leaf, resolve_loop, at_component, component, skip_slashes}
use rvos.Fat.Files.{file_entry, fat16_read}
use rvos.Fat.Contents.{chain_data, fat16_read-data}
use rvos.Text.{Str}
use rvos.Fat.{Volume, Geometry, fat_free_chain, fat_alloc_from, fat_free}
use rvos.Fat.Entry.{UsableVolume, entry_in}
use rvos.Fat.Chain.{Linked, fat_free_chain-frees}
use rvos.Fat.Alloc.{IsFirstFree, fat_alloc_from-IsFirstFree}
use rvos.Fat.Names.{
  Field, to_83, fits_83, fmt_name, put_base, to_dot, after_dot, put_ext, base_of, ext_of, ext_fits,
}
use rvos.Fat.ShortNames.{fmt_name-fits_83}
use rvos.Fat.Unicode.{to_utf8, to_utf16, emit, bytes_of}
use rvos.Fat.Utf.{to_utf16-to_utf8}
use rvos.Fat.Slots.{Slot, slot_ptr, slot_put, dir_sector, fetch}
use rvos.Fat.Cached.{Coherent, Reads, slot_of, put_slot, slot_ptr-Reads, slot_put-disk}
use rvos.Fat.Scan.{Found, dscan_start, dscan_loop, dscan_next, dir_run, run_loop}
use rvos.Fat.Create.{put_name, set_entry, blank_entry}
use rvos.Fat.Put.{put_name-found}
use rvos.Fat.Pieces.{Same32}
use rvos.Fat.Collect.{pieces}
use rvos.Fat.Components.{NoSlash}
use rvos.Fat.Paths.{resolve}

abbrev geometry : Geometry
geometry = record {
  bytes_per_sec = 512;
  sec_per_clus = 1;
  reserved = 1;
  num_fats = 2;
  root_entries = 16;
  sec_per_fat = 1;
  fat_start = 1;
  root_start = 3;
  root_sectors = 1;
  data_start = 4;
  ok = true;
}

abbrev empty : Volume
empty = record {
  fs = geometry;
  disk = λ s i. 0;
  readable = λ s. true;
  writable = λ s. true;
  junk = λ i. 0;
  dcache_lba = 0;
  dcache = λ i. 0;
  dcache_ok = false;
}

usable : (v : Volume) → UsableVolume (record empty { disk = v.disk })
usable v = record { a_copy = omega arith; reads = λ f s hf hs. refl; writes = λ f s hf hs. refl }

-- The sector of the root is remembered.
abbrev remembering : Volume
remembering = record empty { dcache_lba = 3; dcache = empty.disk 3; dcache_ok = true }

coherent : Coherent remembering
coherent = record { same = λ on. refl; was_read = λ on. refl }

-- In the first table cluster 2 leads to cluster 3, where the chain ends.
abbrev chained : Volume
chained = record empty {
  disk = λ s i. if i == 4 then 3 else if (i == 6) || (i == 7) then 0xff else 0;
}

chain : Linked geometry chained.disk 2 (2 ∷ 3 ∷ [])
chain = (refl, refl, omega arith, (refl, refl, omega arith, refl))

fat_free_chain-frees_example : entry_in geometry (fat_free_chain chained 2).disk 1 3 ≡ fat_free
fat_free_chain-frees_example =
    fat_free_chain-frees chained 2 (2 ∷ 3 ∷ []) 1 3 (usable chained) chain (omega arith)
      (omega arith)

fat_alloc_from-IsFirstFree_example :
    IsFirstFree chained (max 2 0) (1 * 256) (fat_alloc_from chained 0)
fat_alloc_from-IsFirstFree_example =
    fat_alloc_from-IsFirstFree chained 0 (usable chained) (omega arith)

slot_ptr-Reads_example : Reads remembering (slot_of remembering 0 5) (slot_ptr remembering 0 5)
slot_ptr-Reads_example = slot_ptr-Reads remembering 0 5 coherent

abbrev an_entry : Slot
an_entry j = if j == 0 then b'A' else 0

slot_put-disk_example :
    ((slot_put remembering 0 5 an_entry).0 ≡ true)
    × ((slot_put remembering 0 5 an_entry).1.disk ≡ put_slot remembering.disk 3 5 an_entry)
    × Coherent (slot_put remembering 0 5 an_entry).1
unfolding dir_sector
slot_put-disk_example = slot_put-disk remembering 0 5 3 an_entry coherent refl refl refl

abbrev readme : Str
readme = b'R' ∷ b'E' ∷ b'A' ∷ b'D' ∷ b'M' ∷ b'E' ∷ b'.' ∷ b'T' ∷ b'X' ∷ b'T' ∷ []

fmt_name-fits_83_example : fmt_name (to_83 readme) ≡ readme
unfolding fits_83 base_of ext_fits ext_of
fmt_name-fits_83_example =
    fmt_name-fits_83 readme (to_83 readme)
      (refl, (refl, (refl, (refl, (refl, (refl, (refl, (refl, (refl, (refl, tt)))))))))) refl

-- One unit of one byte, of two and of three, and a pair.
abbrev units : List ℕ
units = 0x41 ∷ 0x41f ∷ 0x20ac ∷ 0xd83d ∷ 0xde00 ∷ []

abbrev units_bytes : Str
units_bytes = 0x41 ∷ 0xd0 ∷ 0x9f ∷ 0xe2 ∷ 0x82 ∷ 0xac ∷ 0xf0 ∷ 0x9f ∷ 0x98 ∷ 0x80 ∷ []

to_utf16-to_utf8_example : to_utf16 units_bytes 128 ≡ some units
unfolding to_utf8 emit bytes_of
to_utf16-to_utf8_example =
    to_utf16-to_utf8 units 96 128 units_bytes (omega arith) (omega arith) refl

-- Fifteen units, in two entries.
abbrev long_name : List ℕ
long_name =
    b'a' ∷ b' ' ∷ b'l' ∷ b'o' ∷ b'n' ∷ b'g' ∷ b' ' ∷ b'n' ∷ b'a' ∷ b'm' ∷ b'e' ∷ b'.' ∷ b't' ∷ b'x'
    ∷ b't' ∷ []

abbrev short_name : Field
short_name = to_83 readme

put_name-found_example :
    ((put_name remembering 0 short_name long_name 0x20 7 99).0 ≡ some (0 + pieces long_name))
    × ((f : Found) × ((dscan_next
            (put_name remembering 0 short_name long_name 0x20 7 99).1
            (dscan_start 0)).0
          ≡ some f)
        × (f.slot ≡ 0 + pieces long_name)
        × (f.name ≡ long_name)
        × (f.chain ≡ 0)
        × Same32 f.ent (set_entry blank_entry short_name 0x20 7 99))
unfolding dir_run run_loop slot_ptr dir_sector fetch to_83 put_base to_dot after_dot put_ext to_utf8
    emit bytes_of
put_name-found_example =
    put_name-found remembering 0 short_name long_name 0x20 7 99 long_name (dscan_start 0) coherent
      (λ n below. (refl, refl)) refl ((λ e. omega (arith, e)), (λ e. omega (arith, e)), inl refl)
      (
        refl,
        (
          refl,
          (
            refl,
            (
              refl,
              (
                refl,
                (refl, (refl, (refl, (refl, (refl, (refl, (refl, (refl, (refl, (refl, tt)))))))))),
              ),
            ),
          ),
        ),
      )
      (omega arith) (omega arith) (omega arith) refl refl refl

-- Some bytes that are no slash.
abbrev letters : ℕ → Str
letters zero = []
letters (suc n) = b'A' ∷ letters n

letters-NoSlash : (n : ℕ) → NoSlash (letters n)
letters-NoSlash zero = tt
letters-NoSlash (suc n) = (refl, letters-NoSlash n)

-- A file of seven hundred bytes in the two clusters of the chain.
abbrev file_name : Str
file_name = b'A' ∷ b'.' ∷ b'T' ∷ []

abbrev with_file : Volume
with_file = record empty {
  disk = λ s. if s == 3 then set_entry blank_entry (to_83 file_name) 0x20 2 700 else chained.disk s;
}

abbrev file_found : Found
file_found = record { slot = 0; name = file_name; ent = λ j. with_file.disk 3 (0 + j); chain = 0 }

abbrev after_lookup : Volume
after_lookup = record with_file { dcache_lba = 3; dcache = with_file.disk 3; dcache_ok = true }

fat16_read-data_example :
    fat16_read with_file (b'/' ∷ file_name) 1024
    ≡ (some (take (rd32 file_found.ent 28) (chain_data after_lookup (2 ∷ 3 ∷ []))), after_lookup)
unfolding file_entry resolve_leaf resolve resolve_loop at_component component skip_slashes
    dir_lookup lookup_loop dscan_next dscan_loop slot_ptr dir_sector fetch name_of fmt_name part
    c_str name_eq set_entry to_83 put_base to_dot after_dot put_ext blk_read
fat16_read-data_example =
    fat16_read-data with_file after_lookup (b'/' ∷ file_name) file_found 1024 (2 ∷ 3 ∷ []) refl
      (omega arith) (usable with_file) (omega arith)
      (refl, refl, omega arith, (refl, refl, omega arith, refl)) ((refl, tt), ((refl, tt), tt))
