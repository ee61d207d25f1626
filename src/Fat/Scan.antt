-- ===== src/Fat/Scan.antt =====
-- src/fat16.c: walking a directory. The loops of the source have no bound of their own: a directory
-- ends where its chain does, and `scan_fuel` is more slots than a chain without a loop can have.
use rvos.Common.{
  ℕ, zero, suc, ◌+◌, ◌-◌, ◌*◌, ◌/◌, ◌%◌, ◌^◌, Bool, true, false, ◌&&◌, ◌||◌, Option, none, some,
  List, [], ◌∷◌, ltb, leb, ◌==◌, if◌then◌else◌,
}
use rvos.Text.{Str}
use rvos.Fat.{Volume}
use rvos.Fat.Names.{fmt_name, sfn_sum, name_eq}
use rvos.Fat.Unicode.{to_utf8}
use rvos.Fat.Long.{lfn_chars, Units, lfn_get}
use rvos.Fat.Slots.{Slot, slot_ptr, slot_at}

abbrev pub lfn_attr : ℕ
lfn_attr = 0x0f

abbrev pub lfn_max_units : ℕ
lfn_max_units = 128

abbrev pub fat_name_max : ℕ
fat_name_max = 96

-- 65536 clusters of at most 256 sectors of 16 slots.
abbrev pub scan_fuel : ℕ
scan_fuel = 2 ^ 28

-- struct dscan
pub record Scan : Type 0 where
  pub dir : ℕ
  pub i : ℕ
  pub units : Units
  pub nunits : ℕ
  pub have : Bool
  pub sum : ℕ
  pub first : ℕ

-- `units` and `sum` are not read before they are set.
abbrev pub dscan_start : ℕ → Scan
dscan_start dir = record {
  dir = dir;
  i = 0;
  units = λ k. 0;
  nunits = 0;
  have = false;
  sum = 0;
  first = 0;
}

-- What a call of dscan_next hands back besides the scan.
pub record Found : Type 0 where
  pub slot : ℕ
  pub name : Str
  pub ent : Slot
  pub chain : ℕ

abbrev pub no_chain : Scan → Scan
no_chain s = record s { have = false; i = s.i + 1 }

-- The first entry of a long name on disk starts a chain.
abbrev pub chain_start : Scan → Slot → Scan
chain_start s d =
    if d 0 / 64 % 2 == 1
    then record s { have = true; sum = d 13; nunits = 0; first = s.i; units = λ k. 0 }
    else s

-- The units of an entry, where a chain is collected and it has room for them.
unfoldable pub add_piece : Scan → Slot → ℕ → Scan
add_piece s d seq =
    if s.have && leb 1 seq && leb (seq * lfn_chars) lfn_max_units
    then record s {
      units = lfn_get d s.units ((seq - 1) * lfn_chars);
      nunits = if ltb s.nunits (seq * lfn_chars) then seq * lfn_chars else s.nunits;
      i = s.i + 1;
    }
    else no_chain s

-- An entry of a long name.
unfoldable pub take_long : Scan → Slot → Scan
take_long s d = add_piece (chain_start s d) d (d 0 % 64)

-- The units before the terminator, from `k` on.
unfoldable pub used_units : ℕ → ℕ → Units → List ℕ
used_units zero k units = []
used_units (suc left) k units =
    let rest = used_units left (k + 1) units in
    if (units k == 0) || (units k == 0xffff) then [] else units k ∷ rest

unfoldable pub name_of : Scan → Slot → Str
name_of s ent =
    if s.have && (s.sum == sfn_sum ent)
    then elim (to_utf8 (used_units s.nunits 0 s.units) 0 fat_name_max) [
      | none ↦ fmt_name ent
      | some name ↦ name
    ]
    else fmt_name ent

abbrev pub found_at : Scan → Slot → Found
found_at s d = record {
  slot = s.i;
  name = name_of s d;
  ent = d;
  chain = if s.have then s.first else s.i;
}

unfoldable pub dscan_loop : ℕ → Volume → Scan → Option Found × Scan × Volume
dscan_loop zero v s = (none, s, v)
dscan_loop (suc fuel) v s =
    let (p, v1) = slot_ptr v s.dir s.i in
    elim p [
      | none ↦ (none, s, v1)
      | some at ↦
          let d = slot_at v1 at in
          let skipped = dscan_loop fuel v1 (no_chain s) in
          let long = dscan_loop fuel v1 (take_long s d) in
          if d 0 == 0
          then (none, s, v1)
          else if d 0 == 0xe5
          then skipped
          else if d 11 == lfn_attr
          then long
          else if d 11 / 8 % 2 == 1
          then skipped
          else (some (found_at s d), no_chain s, v1)
    ]

unfoldable pub dscan_next : Volume → Scan → Option Found × Scan × Volume
dscan_next v s = dscan_loop scan_fuel v s

unfoldable pub lookup_loop : ℕ → Volume → Scan → Str → Option Found × Volume
lookup_loop zero v s name = (none, v)
lookup_loop (suc fuel) v s name =
    let (next, s1, v1) = dscan_next v s in
    elim next [
      | none ↦ (none, v1)
      | some found ↦
          let rest = lookup_loop fuel v1 s1 name in
          if name_eq found.name name then (some found, v1) else rest
    ]

unfoldable pub dir_lookup : Volume → ℕ → Str → Option Found × Volume
dir_lookup v dir name = lookup_loop scan_fuel v (dscan_start dir) name

-- `run` free slots stand before slot `i`, from `begin` on.
unfoldable pub run_loop : ℕ → Volume → ℕ → ℕ → ℕ → ℕ → ℕ → Option ℕ × Volume
run_loop zero v dir count i run begin = (none, v)
run_loop (suc fuel) v dir count i run begin =
    let (p, v1) = slot_ptr v dir i in
    elim p [
      | none ↦ (none, v1)
      | some at ↦
          let start = if run == 0 then i else begin in
          let taken = run_loop fuel v1 dir count (i + 1) 0 begin in
          let longer = run_loop fuel v1 dir count (i + 1) (run + 1) start in
          if (slot_at v1 at 0 == 0) || (slot_at v1 at 0 == 0xe5)
          then if leb count (run + 1) then (some start, v1) else longer
          else taken
    ]

unfoldable pub dir_run : Volume → ℕ → ℕ → Option ℕ × Volume
dir_run v dir count = run_loop scan_fuel v dir count 0 0 0
