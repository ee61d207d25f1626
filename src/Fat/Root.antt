-- ===== src/Fat/Root.antt =====
-- The root directory of src/fat16.c: what slot_put leaves of its slots.
use rvos.Common.{
  ℕ, ◌+◌, ◌*◌, ◌/◌, ◌%◌, ◌<◌, ◌≡◌, ◌≢◌, refl, sym, ap, ◌∙◌, true, false, ◌&&◌, some, ltb, leb,
  arith, update, update_self, update_ne,
}
use native.Mathlib.Decide.{ℕ_discrete}
use rvos.Fat.{Volume, Sector, blk_write, copy_in}
use rvos.Fat.Pieces.{Same32}
use rvos.Fat.Slots.{Slot, slots_per_sec, dir_sector, slot_put}
use rvos.Fat.Cached.{Coherent, slot_of, put_slot, slot_put-cached}

-- Every sector of the root can be read and written.
abbrev pub RootUsable : Volume → Type 0
RootUsable v =
    (n : ℕ)
    → n < v.fs.root_sectors
    → (v.readable (v.fs.root_start + n) ≡ true) × (v.writable (v.fs.root_start + n) ≡ true)

abbrev pub InRoot : Volume → ℕ → Type 0
InRoot v i = i < v.fs.root_sectors * 16

-- The bytes of a slot of the root.
abbrev pub root_bytes : Volume → ℕ → Slot
root_bytes v i j = v.disk (v.fs.root_start + i / slots_per_sec) (i % slots_per_sec * 32 + j)

-- The volume with a slot of the root changed, on the disk and in the remembered sector.
abbrev pub root_put : Volume → ℕ → Slot → Volume
root_put v i ent =
    let lba = v.fs.root_start + i / slots_per_sec in
    record v {
      disk = put_slot v.disk lba i ent;
      dcache_lba = lba;
      dcache = copy_in (v.disk lba) (i % slots_per_sec * 32) ent 32;
      dcache_ok = true;
    }

root_sector :
    (v : Volume) (i : ℕ)
    → InRoot v i
    → dir_sector v 0 (i / slots_per_sec) ≡ some (v.fs.root_start + i / slots_per_sec)
unfolding dir_sector
root_sector v i inside =
    let room : leb v.fs.root_sectors (i / slots_per_sec) ≡ false = ground arith in
    rw (dir_sector, room) refl

pub slot_of-root :
    (v : Volume) (i : ℕ) → RootUsable v → InRoot v i → slot_of v 0 i ≡ some (root_bytes v i)
slot_of-root v i u inside =
    let good = (u (i / slots_per_sec) (omega arith)).0 in
    rw (slot_of, root_sector v i inside, good) refl

pub slot_put-root :
    (v : Volume) (i : ℕ) (ent : Slot)
    → Coherent v
    → RootUsable v
    → InRoot v i
    → slot_put v 0 i ent ≡ (true, root_put v i ent)
unfolding blk_write
slot_put-root v i ent c u inside =
    let lba = v.fs.root_start + i / slots_per_sec in
    let r = u (i / slots_per_sec) (omega arith) in
    slot_put-cached v 0 i lba ent c (root_sector v i inside) r.0 ∙ rw (blk_write, r.1) refl

pub root_put-Coherent :
    (v : Volume) (i : ℕ) (ent : Slot) → RootUsable v → InRoot v i → Coherent (root_put v i ent)
root_put-Coherent v i ent u inside = record {
  same = λ on. sym (update_self v.disk (v.fs.root_start + i / slots_per_sec) _);
  was_read = λ on. (u (i / slots_per_sec) (omega arith)).0;
}

pub root_bytes_self :
    (v : Volume) (i : ℕ) (ent : Slot) → Same32 (root_bytes (root_put v i ent) i) ent
root_bytes_self v i ent j below =
    let at = i % slots_per_sec * 32 in
    let hit : (leb at (at + j) && ltb (at + j) (at + 32)) ≡ true = ground arith in
    ap (λ (b : Sector). b (at + j)) (update_self v.disk (v.fs.root_start + i / slots_per_sec) _)
    ∙ rw hit (ap ent (omega arith))

apart32 :
    (a c j : ℕ)
    → a ≢ c
    → j < 32
    → (leb (a * 32) (c * 32 + j) && ltb (c * 32 + j) (a * 32 + 32)) ≡ false
apart32 a c j ne below = ground arith

pub root_bytes_ne :
    (v : Volume) (i : ℕ) (ent : Slot) (k : ℕ)
    → i ≢ k
    → Same32 (root_bytes (root_put v i ent) k) (root_bytes v k)
root_bytes_ne v i ent k ne j below =
    let at = k % slots_per_sec * 32 + j in
    let lba = v.fs.root_start + i / slots_per_sec in
    let there = v.fs.root_start + k / slots_per_sec in
    let b = copy_in (v.disk lba) (i % slots_per_sec * 32) ent 32 in
    elim (ℕ_discrete lba there) [
      | no apart ↦ ap (λ (s : Sector). s at) (update_ne v.disk lba b there apart)
      | yes e ↦
          let rows : i / slots_per_sec ≡ k / slots_per_sec = omega (arith, e) in
          let columns : i % slots_per_sec ≢ k % slots_per_sec = λ z. ne (omega (arith, rows, z)) in
          let miss : (leb (i % slots_per_sec * 32) at && ltb at (i % slots_per_sec * 32 + 32))
              ≡ false =
            apart32 (i % slots_per_sec) (k % slots_per_sec) j columns below in
          ap (λ n. update v.disk lba b n at) (sym e)
          ∙ ap (λ (s : Sector). s at) (update_self v.disk lba b)
          ∙ rw miss (ap (λ n. v.disk n at) e)
    ]
