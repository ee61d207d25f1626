-- ===== src/Fat/Put.antt =====
-- put_name of src/fat16.c in the root directory: the entries stand where dir_run found room for them,
-- and dscan_next finds the name.
use rvos.Common.{
  ℕ, zero, suc, ◌+◌, ◌-◌, ◌*◌, ◌/◌, ◌%◌, ◌≤◌, ◌<◌, ◌≡◌, ◌≢◌, refl, sym, ap, subst, ◌∙◌, inl, inr,
  ◌⊎◌, true, Option, some, List, length, ltb, ◌==◌, arith, Bool-cases, ==_ne,
}
use mathlib.Core.Option.{none-ne-some}
use rvos.Text.{Str}
use rvos.Fat.{Volume}
use rvos.Fat.Names.{Field, sfn_sum, sfn_loop}
use rvos.Fat.Unicode.{to_utf8}
use rvos.Fat.Pieces.{Same32}
use rvos.Fat.Slots.{Slot}
use rvos.Fat.Cached.{Coherent}
use rvos.Fat.Scan.{fat_name_max, Scan, Found, dscan_next, dir_run}
use rvos.Fat.Room.{Vacant, dir_run-Vacant, dir_run-OnlyCache}
use rvos.Fat.Ends.{root-EndsAt}
use rvos.Fat.Root.{
  RootUsable, InRoot, root_bytes, root_put, slot_of-root, slot_put-root, root_put-Coherent,
  root_bytes_self, root_bytes_ne,
}
use rvos.Fat.Create.{set_entry, blank_entry, long_entry, put_name}
use rvos.Fat.Collect.{Words16, NoEnd, pieces}
use rvos.Fat.Walk.{Written, InUse, IsShort, dscan_next-long}
use rvos.Fat.PutLong.{after_long, put_long_lem, after_long-entry}

-- The bytes of a new short entry.
set_entry-name :
    (n11 : Field) (attr first size j : ℕ)
    → j < 11
    → set_entry blank_entry n11 attr first size j ≡ n11 j
unfolding set_entry
set_entry-name n11 attr first size j below = ground arith

set_entry-attr :
    (n11 : Field) (attr first size : ℕ) → set_entry blank_entry n11 attr first size 11 ≡ attr
unfolding set_entry
set_entry-attr n11 attr first size = refl

sfn_loop_same :
    (left i s : ℕ) (d e : Field)
    → i + left ≤ 11
    → ((j : ℕ) → j < 11 → d j ≡ e j)
    → sfn_loop left i s d ≡ sfn_loop left i s e
unfolding sfn_loop
sfn_loop_same zero i s d e room same = refl
sfn_loop_same (suc left) i s d e room same =
    ap (λ x. sfn_loop left (i + 1) ((s % 2 * 128 + s / 2 + x) % 256) d) (same i (omega arith))
    ∙ sfn_loop_same left (i + 1) ((s % 2 * 128 + s / 2 + e i) % 256) d e (omega arith) same

sfn_sum_same : (d e : Field) → ((j : ℕ) → j < 11 → d j ≡ e j) → sfn_sum d ≡ sfn_sum e
unfolding sfn_sum
sfn_sum_same d e same = sfn_loop_same 11 0 0 d e (omega arith) same

-- The names that the operations put: no field starts like a free slot, and the attributes are those
-- of a file or of a directory.
abbrev pub Puts : Field → ℕ → Type 0
Puts n11 attr = (n11 0 ≢ 0) × (n11 0 ≢ 0xe5) × ((attr ≡ 0x20) ⊎ (attr ≡ 0x10))

IsShort_lem :
    (n11 : Field) (attr : ℕ) (e : Slot) → Puts n11 attr → e 0 ≡ n11 0 → e 11 ≡ attr → IsShort e
IsShort_lem n11 attr e puts byte0 byte11 =
    let used : InUse e = (
      ==_ne (e 0) 0 (λ z. puts.0 (sym byte0 ∙ z)),
      ==_ne (e 0) 0xe5 (λ z. puts.1 (sym byte0 ∙ z)),
    ) in
    elim puts.2 [
      | inl file ↦ let is : e 11 ≡ 0x20 = byte11 ∙ file in (used, ground arith, ground arith)
      | inr dir ↦ let is : e 11 ≡ 0x10 = byte11 ∙ dir in (used, ground arith, ground arith)
    ]

-- The slots from `at` on after put_name has put a name there.
put_name_at :
    (v : Volume) (at : ℕ) (n11 : Field) (us : List ℕ) (attr first size : ℕ)
    → Coherent v
    → RootUsable v
    → at + pieces us + 1 ≤ v.fs.root_sectors * 16
    → Puts n11 attr
    → let long = after_long (pieces us) v at us (sfn_sum n11) true in
      let w = root_put long (at + pieces us) (set_entry blank_entry n11 attr first size) in
      let e = root_bytes w (at + pieces us) in
      Coherent w × Written w 0 at us (sfn_sum e) e × IsShort e
put_name_at v at n11 us attr first size c u room puts =
    let long = after_long (pieces us) v at us (sfn_sum n11) true in
    let ent = set_entry blank_entry n11 attr first size in
    let w = root_put long (at + pieces us) ent in
    let e = root_bytes w (at + pieces us) in
    let l = put_long_lem (pieces us) v at us (sfn_sum n11) true c u (omega arith) in
    let inside : InRoot long (at + pieces us) = omega (arith, l.1.sectors) in
    let self = root_bytes_self long (at + pieces us) ent in
    let total : sfn_sum n11 ≡ sfn_sum e = sym (
      sfn_sum_same e n11
        (λ j below. self j (omega arith) ∙ set_entry-name n11 attr first size j below)) in
    let byte0 : e 0 ≡ n11 0 =
      self 0 (omega arith) ∙ set_entry-name n11 attr first size 0 (omega arith) in
    let byte11 : e 11 ≡ attr = self 11 (omega arith) ∙ set_entry-attr n11 attr first size in
    (
      root_put-Coherent long (at + pieces us) ent l.1.usable inside,
      record {
        long = λ q low high. (
          root_bytes w (at + (pieces us - q)),
          slot_of-root w (at + (pieces us - q)) l.1.usable (omega (arith, l.1.sectors)),
          λ j below.
              root_bytes_ne long (at + pieces us) ent (at + (pieces us - q)) (λ z. omega arith) j
                below
              ∙ after_long-entry (pieces us) v at us (sfn_sum n11) true q low high j below
              ∙ ap (λ t. long_entry us t q (q == pieces us) j) total,
        );
        short = slot_of-root w (at + pieces us) l.1.usable inside;
      },
      IsShort_lem n11 attr e puts byte0 byte11,
    )

-- A slot of the root that is there is below its end.
room_lem : (v : Volume) (j : ℕ) → Vacant v 0 j → j + 1 ≤ v.fs.root_sectors * 16
room_lem v j (d, here, vacant) = elim (Bool-cases (ltb j (v.fs.root_sectors * 16))) [
  | inl y ↦ ground arith
  | inr n ↦ absurd (none-ne-some d (sym (root-EndsAt v j (ground arith)) ∙ here))
]

-- What put_name does once dir_run has found room.
put_name-root :
    (v : Volume) (at : ℕ) (n11 : Field) (us : List ℕ) (attr first size : ℕ)
    → Coherent v
    → RootUsable v
    → (dir_run v 0 (pieces us + 1)).0 ≡ some at
    → (at + pieces us + 1 ≤ v.fs.root_sectors * 16)
      × ((w : Volume) × Coherent w
          × RootUsable w
          × (w.fs.root_sectors ≡ v.fs.root_sectors)
          × (put_name v 0 n11 us attr first size ≡ (
            some (at + pieces us),
            root_put
                (after_long (pieces us) w at us (sfn_sum n11) true)
                (at + pieces us)
                (set_entry blank_entry n11 attr first size),
          )))
unfolding put_name
put_name-root v at n11 us attr first size c u found =
    let o = dir_run-OnlyCache v 0 (pieces us + 1) c in
    let w = (dir_run v 0 (pieces us + 1)).1 in
    let same : w.fs.root_sectors ≡ v.fs.root_sectors =
      ap (λ (x : Volume). x.fs.root_sectors) o.kept in
    let uw : RootUsable w = subst RootUsable (sym o.kept) u in
    let room : at + pieces us + 1 ≤ v.fs.root_sectors * 16 = room_lem v (at + pieces us) (
      dir_run-Vacant v 0 (pieces us + 1) at c found (at + pieces us) (omega arith) (omega arith)) in
    let ent = set_entry blank_entry n11 attr first size in
    let l =
      put_long_lem (pieces us) w at us (sfn_sum n11) true o.coherent uw (omega (arith, same)) in
    let long = after_long (pieces us) w at us (sfn_sum n11) true in
    let short =
      slot_put-root long (at + pieces us) ent l.1.coherent l.1.usable
        (omega (arith, l.1.sectors, same)) in
    (room, (w, o.coherent, uw, same, rw (put_name, found, l.0, short) refl))

-- Where the remembered sector is coherent, the root can be read and written and dir_run finds room at
-- slot `at`, a name of 1 to 117 units, none of them 0 or 0xffff, whose UTF-8 fits in the buffer is
-- found once it has been put, as a file or a directory under a short name that starts with neither 0
-- nor 0xe5: put_name answers the slot behind as many long entries as the name takes, and any scan of
-- the root that has got to `at`, whatever it has collected before, goes on with dscan_next to that
-- slot, the long name, `at` as the start of the chain and the entry as it was made.
pub put_name-found :
    (v : Volume) (at : ℕ) (n11 : Field) (us : List ℕ) (attr first size : ℕ) (name : Str) (s : Scan)
    → Coherent v
    → RootUsable v
    → (dir_run v 0 (pieces us + 1)).0 ≡ some at
    → Puts n11 attr
    → NoEnd us
    → Words16 us
    → 0 < length us
    → length us ≤ 117
    → to_utf8 us 0 fat_name_max ≡ some name
    → s.dir ≡ 0
    → s.i ≡ at
    → let r = put_name v 0 n11 us attr first size in
      (r.0 ≡ some (at + pieces us))
      × ((f : Found) × ((dscan_next r.1 s).0 ≡ some f)
          × (f.slot ≡ at + pieces us)
          × (f.name ≡ name)
          × (f.chain ≡ at)
          × Same32 f.ent (set_entry blank_entry n11 attr first size))
put_name-found v at n11 us attr first size name s c u found puts ok words some_unit few fits root
      from =
    let p = put_name-root v at n11 us attr first size c u found in
    let long = after_long (pieces us) p.1.0 at us (sfn_sum n11) true in
    let w = root_put long (at + pieces us) (set_entry blank_entry n11 attr first size) in
    let e = root_bytes w (at + pieces us) in
    let h =
      put_name_at p.1.0 at n11 us attr first size p.1.1 p.1.2 (omega (arith, p.0, p.1.3)) puts in
    let scan =
      dscan_next-long w 0 at us s e name h.0 h.1 h.2 ok words some_unit few fits root from in
    (
      ap (λ r. r.0) p.1.4,
      (
        record { slot = at + pieces us; name = name; ent = e; chain = at },
        ap (λ (r : Option ℕ × Volume). (dscan_next r.1 s).0) p.1.4 ∙ scan,
        refl,
        refl,
        refl,
        root_bytes_self long (at + pieces us) (set_entry blank_entry n11 attr first size),
      ),
    )
