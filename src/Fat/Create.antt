-- ===== src/Fat/Create.antt =====
-- src/fat16.c: making a short name, and putting a new name in a directory.
use rvos.Common.{
  ℕ, zero, suc, ◌+◌, ◌-◌, ◌*◌, ◌/◌, ◌%◌, Bool, true, false, ◌||◌, Option, none, some, List, [], ◌∷◌,
  ◌++◌, length, take, get_or, passes, ltb, leb, ◌==◌, if◌then◌else◌, update,
}
use rvos.Text.{Str}
use rvos.Fat.{Volume, wr16, wr32, copy_in}
use rvos.Fat.Names.{Field, up, blanks, fits_83, sfn_sum}
use rvos.Fat.Unicode.{to_utf16}
use rvos.Fat.Long.{lfn_chars, lfn_put}
use rvos.Fat.Slots.{Slot, slot_put}
use rvos.Fat.Scan.{lfn_attr, lfn_max_units, scan_fuel, Scan, dscan_start, dscan_next, dir_run}

-- The part of a name in front of its last dot, and the part behind it.
unfoldable pub split_name : Str → Str × Option Str
split_name [] = ([], none)
split_name (c ∷ s) =
    let (front, back) = split_name s in
    elim back [
      | some e ↦ (c ∷ front, some e)
      | none ↦ if c == b'.' then ([], some s) else (c ∷ front, none)
    ]

abbrev pub short_char : ℕ → ℕ
short_char c = if ltb c 0x80 then up c else b'_'

-- Blanks and dots are left out.
unfoldable pub base_chars : ℕ → Str → Str
base_chars room [] = []
base_chars zero (c ∷ s) = []
base_chars (suc room) (c ∷ s) =
    let skipped = base_chars (suc room) s in
    let rest = base_chars room s in
    if (c == b' ') || (c == b'.') then skipped else short_char c ∷ rest

unfoldable pub ext_chars : ℕ → Str → Str
ext_chars zero s = []
ext_chars (suc room) [] = []
ext_chars (suc room) (c ∷ s) = short_char c ∷ ext_chars room s

-- Characters written one after another.
unfoldable pub put_chars : Str → ℕ → Field → Field
put_chars [] k out = out
put_chars (c ∷ s) k out = put_chars s (k + 1) (update out k c)

-- The tail: `~` and the number.
unfoldable pub tail_of : ℕ → Str
tail_of n =
    if leb 10 n then b'~' ∷ (b'0' + n / 10) ∷ (b'0' + n % 10) ∷ [] else b'~' ∷ (b'0' + n % 10) ∷ []

unfoldable pub candidate : Str → Str → ℕ → Field
candidate base ext n =
    let front = take (if ltb n 10 then 6 else 5) base in
    put_chars ext 8 (put_chars (front ++ tail_of n) 0 blanks)

-- `umemcmp(a, b, 11) == 0`
abbrev pub same_field : Field → Field → Bool
same_field a b = passes (λ j. a j == b j) 11

-- A short entry of the directory has the name.
unfoldable pub clash_loop : ℕ → Volume → Scan → Field → Bool × Volume
clash_loop zero v s out = (false, v)
clash_loop (suc fuel) v s out =
    let (next, s1, v1) = dscan_next v s in
    elim next [
      | none ↦ (false, v1)
      | some f ↦
          let rest = clash_loop fuel v1 s1 out in if same_field f.ent out then (true, v1) else rest
    ]

-- The names from the number `n` on; after the last one it is handed back though it clashes.
unfoldable pub short_loop : ℕ → ℕ → Volume → ℕ → Str → Str → Field × Volume
short_loop zero n v dir base ext = (candidate base ext (n - 1), v)
short_loop (suc left) n v dir base ext =
    let out = candidate base ext n in
    let (clash, v1) = clash_loop scan_fuel v (dscan_start dir) out in
    let rest = short_loop left (n + 1) v1 dir base ext in if clash then rest else (out, v1)

pub short_name_for : Volume → ℕ → Str → Field × Volume
short_name_for v dir name =
    let (front, back) = split_name name in
    let ext : Str = elim back [ none ↦ [] | some e ↦ ext_chars 3 e ] in
    let chars = base_chars 6 front in
    let base : Str = elim chars [ [] ↦ b'_' ∷ [] | c ∷ s ↦ c ∷ s ] in short_loop 99 1 v dir base ext

abbrev pub fat_epoch : ℕ
fat_epoch = 0x0021

unfoldable pub set_entry : Slot → Field → ℕ → ℕ → ℕ → Slot
set_entry d name11 attr first size =
    let named = copy_in d 0 name11 11 in
    let marked = update named 11 attr in
    let cleared : Slot = copy_in marked 12 (λ j. 0) 14 in
    let dated = wr16 (wr16 (wr16 cleared 16 fat_epoch) 18 fat_epoch) 24 fat_epoch in
    wr32 (wr16 dated 26 first) 28 size

abbrev pub blank_entry : Slot
blank_entry j = 0

-- The unit `u` of a name of `nu` units: behind the name the terminator, then 0xffff.
abbrev pub unit_at : List ℕ → ℕ → ℕ
unit_at us u = if ltb u (length us) then get_or us u 0 else if u == length us then 0 else 0xffff

-- The entry of a long name with the sequence number `seq`, `last` where it is the first on disk.
unfoldable pub long_entry : List ℕ → ℕ → ℕ → Bool → Slot
long_entry us sum seq last =
    let e =
      update (update (update blank_entry 0 (if last then seq + 64 else seq)) 11 lfn_attr) 13 sum in
    lfn_put e (λ i. unit_at us ((seq - 1) * lfn_chars + i))

-- The long entries with the numbers from `seq` down, the first of them at slot `at`.
unfoldable pub put_long : ℕ → Volume → ℕ → ℕ → List ℕ → ℕ → Bool → Bool × Volume
put_long zero v dir at us sum last = (true, v)
put_long (suc seq) v dir at us sum last =
    let (good, v1) = slot_put v dir at (long_entry us sum (suc seq) last) in
    let rest = put_long seq v1 dir (at + 1) us sum false in if good then rest else (false, v1)

-- The entries of a name whose field on disk and long units are known.
unfoldable pub put_name : Volume → ℕ → Field → List ℕ → ℕ → ℕ → ℕ → Option ℕ × Volume
put_name v dir n11 us attr first size =
    let nlfn = (length us + lfn_chars - 1) / lfn_chars in
    let (start, v1) = dir_run v dir (nlfn + 1) in
    elim start [
      | none ↦ (none, v1)
      | some at ↦
          let (good, v2) = put_long nlfn v1 dir at us (sfn_sum n11) true in
          let (done, v3) =
            slot_put v2 dir (at + nlfn) (set_entry blank_entry n11 attr first size) in
          if good then if done then (some (at + nlfn), v3) else (none, v3) else (none, v2)
    ]

pub dir_create : Volume → ℕ → Str → ℕ → ℕ → ℕ → Option ℕ × Volume
dir_create v dir name attr first size = elim (fits_83 name) [
  | some n11 ↦ put_name v dir n11 [] attr first size
  | none ↦
      let (n11, v1) = short_name_for v dir name in
      let made : List ℕ → Option ℕ × Volume = λ us. put_name v1 dir n11 us attr first size in
      elim (to_utf16 name lfn_max_units) [
        | none ↦ (none, v)
        | some [] ↦ (none, v)
        | some (u ∷ us) ↦ made (u ∷ us)
      ]
]
