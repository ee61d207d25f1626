-- ===== src/Fat/Cached.antt =====
-- The remembered sector of src/fat16.c against the disk: an access to a slot through it is an access
-- to the sector on the disk.
use rvos.Common.{
  ℕ, zero, suc, ◌+◌, ◌*◌, ◌/◌, ◌%◌, ◌≡◌, refl, sym, ap, ◌∙◌, subst, inl, inr, Bool, true, ◌||◌, not,
  Option, none, some, ◌!=◌, if◌then◌else◌, update, arith, Bool-cases, update_self,
}
use rvos.Fat.{Volume, Sector, Disk, blk_read, blk_write, copy_in, fat_next}
use rvos.Fat.Slots.{
  slots_per_sec, Slot, dir_walk, dir_sector, fetch, slot_ptr, slot_at, put_at, slot_put,
}

-- The sector that is remembered is one that was read, and still what the disk has.
pub record Coherent (v : Volume) : Type 0 where
  pub same : v.dcache_ok ≡ true → v.dcache ≡ v.disk v.dcache_lba
  pub was_read : v.dcache_ok ≡ true → v.readable v.dcache_lba ≡ true

abbrev part_of : Volume → ℕ → ℕ → Option Slot
part_of v lba at = if v.readable lba then some (λ j. v.disk lba (at + j)) else none

-- A slot on the disk, without the cache.
abbrev pub slot_of : Volume → ℕ → ℕ → Option Slot
slot_of v dir i = elim (dir_sector v dir (i / slots_per_sec)) [
  | none ↦ none
  | some lba ↦ part_of v lba (i % slots_per_sec * 32)
]

-- What slot_ptr answers: the slot that the pointer leads to.
abbrev pub slot_seen : Option ℕ × Volume → Option Slot
slot_seen r = elim r.0 [ none ↦ none | some at ↦ some (slot_at r.1 at) ]

-- A volume with another sector remembered.
abbrev pub recached : Volume → ℕ → Sector → Bool → Volume
recached v lba b good = record v { dcache_lba = lba; dcache = b; dcache_ok = good }

-- The answer is the one without the cache, the cache is coherent again, and nothing but the cache is
-- changed.
pub record Reads (v : Volume) (wanted : Option Slot) (r : Option ℕ × Volume) : Type 0 where
  pub seen : slot_seen r ≡ wanted
  pub coherent : Coherent r.1
  pub kept : r.1 ≡ recached v r.1.dcache_lba r.1.dcache r.1.dcache_ok

-- What is on the disk does not depend on what is remembered.
dir_walk-recached :
    (skip : ℕ) (v : Volume) (c lba : ℕ) (b : Sector) (good : Bool)
    → dir_walk skip (recached v lba b good) c ≡ dir_walk skip v c
unfolding dir_walk fat_next blk_read
dir_walk-recached zero v c lba b good = refl
dir_walk-recached (suc skip) v c lba b good =
    rw (dir_walk, dir_walk-recached skip v (fat_next v c) lba b good) refl

dir_sector-recached :
    (v : Volume) (lba : ℕ) (b : Sector) (good : Bool) (dir n : ℕ)
    → dir_sector (recached v lba b good) dir n ≡ dir_sector v dir n
unfolding dir_sector
dir_sector-recached v lba b good dir n =
    rw (dir_sector, dir_walk-recached (n / v.fs.sec_per_clus) v dir lba b good) refl

pub slot_of-recached :
    (v : Volume) (lba : ℕ) (b : Sector) (good : Bool) (dir i : ℕ)
    → slot_of (recached v lba b good) dir i ≡ slot_of v dir i
slot_of-recached v lba b good dir i =
    rw (slot_of, dir_sector-recached v lba b good dir (i / slots_per_sec)) refl

fetch-Reads : (v : Volume) (lba at : ℕ) → Coherent v → Reads v (part_of v lba at) (fetch v lba at)
unfolding fetch blk_read
fetch-Reads v lba at c = elim (Bool-cases (not v.dcache_ok || (v.dcache_lba != lba))) [
  | inl miss ↦ elim (Bool-cases (v.readable lba)) [
    | inl good ↦
        rw (miss, good)
          (record {
            seen = refl;
            coherent = record { same = λ e. refl; was_read = λ e. good };
            kept = refl;
          })
    | inr bad ↦ rw (miss, bad) (record { seen = refl; coherent = c; kept = refl })
  ]
  | inr hit ↦
      let on : v.dcache_ok ≡ true = ground arith in
      let here : v.dcache_lba ≡ lba = ground arith in
      let good : v.readable lba ≡ true = subst (λ n. v.readable n ≡ true) here (c.was_read on) in
      let same : v.dcache ≡ v.disk lba = c.same on ∙ ap v.disk here in
      rw (hit, good)
        (record { seen = ap (λ b. some (λ j. b (at + j))) same; coherent = c; kept = refl })
]

-- With the remembered sector coherent, slot_ptr leads to the bytes that the slot has on the disk and
-- fails where the directory has no such sector or it cannot be read; the remembered sector is
-- coherent again, and nothing else is changed.
pub slot_ptr-Reads :
    (v : Volume) (dir i : ℕ) → Coherent v → Reads v (slot_of v dir i) (slot_ptr v dir i)
unfolding slot_ptr
slot_ptr-Reads v dir i c =
    elim (dir_sector v dir (i / slots_per_sec))
      as (λ o.
        Reads v (elim o [ none ↦ none | some lba ↦ part_of v lba (i % slots_per_sec * 32) ])
          (elim o [ none ↦ (none, v) | some lba ↦ fetch v lba (i % slots_per_sec * 32) ])) [
            | none ↦ record { seen = refl; coherent = c; kept = refl }
            | some lba ↦ fetch-Reads v lba (i % slots_per_sec * 32) c
          ]

abbrev cached : Volume → ℕ → Volume
cached v lba = record v { dcache_lba = lba; dcache = v.disk lba; dcache_ok = true }

fetch-cached :
    (v : Volume) (lba at : ℕ)
    → Coherent v
    → v.readable lba ≡ true
    → fetch v lba at ≡ (some at, cached v lba)
unfolding fetch blk_read
fetch-cached v lba at c good = elim (Bool-cases (not v.dcache_ok || (v.dcache_lba != lba))) [
  | inl miss ↦ rw (miss, good) refl
  | inr hit ↦
      let on : v.dcache_ok ≡ true = ground arith in
      let here : v.dcache_lba ≡ lba = ground arith in
      let same : v.dcache ≡ v.disk lba = c.same on ∙ ap v.disk here in
      rw hit (λ i. (some at, record v { dcache_lba = here i; dcache = same i; dcache_ok = on i }))
]

-- A sector of the disk with a slot of it changed.
abbrev pub put_slot : Disk → ℕ → ℕ → Slot → Disk
put_slot d lba i ent = update d lba (copy_in (d lba) (i % slots_per_sec * 32) ent 32)

slot_ptr-cached :
    (v : Volume) (dir i lba : ℕ)
    → Coherent v
    → dir_sector v dir (i / slots_per_sec) ≡ some lba
    → v.readable lba ≡ true
    → slot_ptr v dir i ≡ (some (i % slots_per_sec * 32), cached v lba)
unfolding slot_ptr
slot_ptr-cached v dir i lba c e good =
    rw (slot_ptr, e) (fetch-cached v lba (i % slots_per_sec * 32) c good)

pub slot_put-cached :
    (v : Volume) (dir i lba : ℕ) (ent : Slot)
    → Coherent v
    → dir_sector v dir (i / slots_per_sec) ≡ some lba
    → v.readable lba ≡ true
    → let b = copy_in (v.disk lba) (i % slots_per_sec * 32) ent 32 in
      slot_put v dir i ent ≡ blk_write (record (cached v lba) { dcache = b }) lba b
unfolding slot_put put_at
slot_put-cached v dir i lba ent c e good = ap (put_at ent) (slot_ptr-cached v dir i lba c e good)

-- With the remembered sector coherent, slot_put changes the slot in the one sector of the disk that
-- holds it, where that sector can be read and written, and the remembered sector is coherent again.
pub slot_put-disk :
    (v : Volume) (dir i lba : ℕ) (ent : Slot)
    → Coherent v
    → dir_sector v dir (i / slots_per_sec) ≡ some lba
    → v.readable lba ≡ true
    → v.writable lba ≡ true
    → ((slot_put v dir i ent).0 ≡ true)
      × ((slot_put v dir i ent).1.disk ≡ put_slot v.disk lba i ent)
      × Coherent (slot_put v dir i ent).1
unfolding blk_write
slot_put-disk v dir i lba ent c e good able =
    rw (slot_put-cached v dir i lba ent c e good, able)
      (refl, refl, record { same = λ on. sym (update_self v.disk lba _); was_read = λ on. good })
