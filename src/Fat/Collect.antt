-- ===== src/Fat/Collect.antt =====
-- The long entries of a name, in the order in which dir_create of src/fat16.c writes them, as
-- dscan_next collects them: the scan holds the units of the name when it comes to the short entry.
use rvos.Common.{
  ℕ, zero, suc, ◌+◌, ◌-◌, ◌*◌, ◌/◌, ◌%◌, ◌^◌, ◌≤◌, ◌<◌, ◌≡◌, refl, sym, ap, subst, ◌∙◌, inl, inr,
  Bool, true, false, ◌&&◌, ◌||◌, List, [], ◌∷◌, length, get_or, All, ltb, leb, ◌==◌, if◌then◌else◌,
  arith, Bool-cases,
}
use rvos.Fat.Long.{lfn_chars, Units, lfn_get, put_loop, lfn_put}
use rvos.Fat.Pieces.{Same32, lfn_get-lfn_put}
use rvos.Fat.Slots.{Slot}
use rvos.Fat.Scan.{lfn_attr, lfn_max_units, Scan, add_piece, take_long, used_units}
use rvos.Fat.Create.{unit_at, long_entry}

-- The scan has the pieces of the name from the piece `seq` on, of `count` pieces.
pub record Collected (us : List ℕ) (count total start seq : ℕ) (s : Scan) : Type 0 where
  pub have : s.have ≡ true
  pub sum : s.sum ≡ total
  pub first : s.first ≡ start
  pub nunits : s.nunits ≡ count * lfn_chars
  pub i : s.i + seq ≡ start + count
  pub units : (j : ℕ) → seq * lfn_chars ≤ j → j < count * lfn_chars → s.units j ≡ unit_at us j

-- Units that fit in sixteen bits.
abbrev pub Words16 : List ℕ → Type 0
Words16 = All (λ u. u < 2 ^ 16)

get_or_bound : (us : List ℕ) (j : ℕ) → Words16 us → get_or us j 0 < 2 ^ 16
get_or_bound [] j h = omega arith
get_or_bound (u ∷ us) zero h = h.0
get_or_bound (u ∷ us) (suc j) h = get_or_bound us j h.1

unit_at_bound : (us : List ℕ) (j : ℕ) → Words16 us → unit_at us j < 2 ^ 16
unit_at_bound us j h = elim (Bool-cases (ltb j (length us))) [
  | inl y ↦ rw y (get_or_bound us j h)
  | inr n ↦ elim (Bool-cases (j == length us)) [
    | inl e ↦ rw (n, e) (omega arith)
    | inr ne ↦ rw (n, ne) (omega arith)
  ]
]

-- The first byte of a long entry, and its checksum.
pub long_entry-0 :
    (us : List ℕ) (sum seq : ℕ) (last : Bool)
    → long_entry us sum seq last 0 ≡ (if last then seq + 64 else seq)
unfolding long_entry lfn_put put_loop
long_entry-0 us sum seq last = refl

long_entry-13 : (us : List ℕ) (sum seq : ℕ) (last : Bool) → long_entry us sum seq last 13 ≡ sum
unfolding long_entry lfn_put put_loop
long_entry-13 us sum seq last = refl

pub long_entry-11 :
    (us : List ℕ) (sum seq : ℕ) (last : Bool) → long_entry us sum seq last 11 ≡ lfn_attr
unfolding long_entry lfn_put put_loop
long_entry-11 us sum seq last = refl

-- The units that the entry with the number `seq` adds to a scan.
abbrev piece : List ℕ → ℕ → Units
piece us seq i = unit_at us ((seq - 1) * lfn_chars + i)

units_added :
    (us : List ℕ) (sum seq : ℕ) (last : Bool) (d : Slot) (out : Units) (j : ℕ)
    → Words16 us
    → Same32 d (long_entry us sum seq last)
    → lfn_get d out ((seq - 1) * lfn_chars) j ≡ (
        if leb ((seq - 1) * lfn_chars) j && ltb j ((seq - 1) * lfn_chars + lfn_chars)
        then piece us seq (j - (seq - 1) * lfn_chars)
        else out j)
unfolding long_entry
units_added us sum seq last d out j h same =
    lfn_get-lfn_put d _ (piece us seq) out ((seq - 1) * lfn_chars) j (λ k. unit_at_bound us _ h)
      same

-- A scan that collects, after the entry with the number `seq`.
added :
    (s : Scan) (d : Slot) (seq : ℕ)
    → s.have ≡ true
    → 1 ≤ seq
    → seq < 10
    → add_piece s d seq ≡ record s {
      units = lfn_get d s.units ((seq - 1) * lfn_chars);
      nunits = if ltb s.nunits (seq * lfn_chars) then seq * lfn_chars else s.nunits;
      i = s.i + 1;
    }
unfolding add_piece
added s d seq have low high =
    let room : (leb 1 seq && leb (seq * lfn_chars) lfn_max_units) ≡ true = ground arith in
    rw (add_piece, have, room) refl

-- The pieces from `seq` on are there once the entry with that number has been added.
add_piece-Collected :
    (us : List ℕ) (count total start seq : ℕ) (last : Bool) (s : Scan) (d : Slot)
    → Words16 us
    → suc seq ≤ count
    → count < 10
    → Same32 d (long_entry us total (suc seq) last)
    → (s.have ≡ true) × (s.sum ≡ total) × (s.first ≡ start) × (s.i + suc seq ≡ start + count)
    → (if ltb s.nunits (suc seq * lfn_chars) then suc seq * lfn_chars else s.nunits)
      ≡ count * lfn_chars
    → ((j : ℕ) → suc seq * lfn_chars ≤ j → j < count * lfn_chars → s.units j ≡ unit_at us j)
    → Collected us count total start seq (add_piece s d (suc seq))
add_piece-Collected us count total start seq last s d h low high same base size rest =
    subst (Collected us count total start seq)
      (sym (added s d (suc seq) base.0 (omega arith) (omega arith)))
      (record {
        have = base.0;
        sum = base.1;
        first = base.2;
        nunits = size;
        i = omega (arith, base.3);
        units = λ j above below.
            units_added us total (suc seq) last d s.units j h same
            ∙ elim (Bool-cases (ltb j (suc seq * lfn_chars))) [
              | inl inside ↦
                  let hit : (leb ((suc seq - 1) * lfn_chars) j
                        && ltb j ((suc seq - 1) * lfn_chars + lfn_chars))
                      ≡ true =
                    ground arith in
                  rw hit (ap (unit_at us) (ground arith))
              | inr outside ↦
                  let miss : (leb ((suc seq - 1) * lfn_chars) j
                        && ltb j ((suc seq - 1) * lfn_chars + lfn_chars))
                      ≡ false =
                    ground arith in
                  rw miss (rest j (ground arith) below)
            ];
      })

-- The first long entry on disk starts the chain.
pub take_long-first :
    (us : List ℕ) (count total start : ℕ) (s : Scan) (d : Slot)
    → Words16 us
    → suc count < 10
    → Same32 d (long_entry us total (suc count) true)
    → s.i ≡ start
    → Collected us (suc count) total start count (take_long s d)
unfolding take_long
take_long-first us count total start s d h high same at =
    let byte0 : d 0 ≡ suc count + 64 =
      same 0 (omega arith) ∙ long_entry-0 us total (suc count) true in
    let byte13 : d 13 ≡ total = same 13 (omega arith) ∙ long_entry-13 us total (suc count) true in
    let marked : (d 0 / 64 % 2 == 1) ≡ true = ground arith in
    let num : d 0 % 64 ≡ suc count = omega arith in
    rw (marked, num)
      (add_piece-Collected us (suc count) total start count true _ d h (omega arith) high same
        (refl, byte13, at, omega (arith, at)) (ground arith)
        (λ j above below. absurd (omega arith)))

pub take_long-next :
    (us : List ℕ) (count total start seq : ℕ) (s : Scan) (d : Slot)
    → Words16 us
    → suc seq ≤ count
    → count < 10
    → Same32 d (long_entry us total (suc seq) false)
    → Collected us count total start (suc seq) s
    → Collected us count total start seq (take_long s d)
unfolding take_long
take_long-next us count total start seq s d h low high same c =
    let byte0 : d 0 ≡ suc seq = same 0 (omega arith) ∙ long_entry-0 us total (suc seq) false in
    let plain : (d 0 / 64 % 2 == 1) ≡ false = ground arith in
    let num : d 0 % 64 ≡ suc seq = omega arith in
    rw (plain, num)
      (add_piece-Collected us count total start seq false s d h low high same
        (c.have, c.sum, c.first, c.i) (let size = c.nunits in ground arith) c.units)

-- Units that a scan does not take for the end of the name.
abbrev pub NoEnd : List ℕ → Type 0
NoEnd = All (λ u. ((u == 0) || (u == 0xffff)) ≡ false)

used_units-reads :
    (us : List ℕ) (left k : ℕ) (units : Units)
    → NoEnd us
    → length us ≤ left
    → ((j : ℕ) → j < length us → units (k + j) ≡ get_or us j 0)
    → (length us < left → units (k + length us) ≡ 0)
    → used_units left k units ≡ us
unfolding used_units
used_units-reads [] zero k units ok fits reads end = refl
used_units-reads [] (suc left) k units ok fits reads end =
    let stop : units k ≡ 0 = ap units (omega arith) ∙ end (omega arith) in rw stop refl
used_units-reads (u ∷ us) zero k units ok fits reads end = absurd (omega arith)
used_units-reads (u ∷ us) (suc left) k units ok fits reads end =
    let first : units k ≡ u = ap units (omega arith) ∙ reads 0 (omega arith) in
    let rest =
      used_units-reads us left (k + 1) units ok.1 (omega arith)
        (λ j l. ap units (omega arith) ∙ reads (suc j) (omega arith))
        (λ l. ap units (omega arith) ∙ end (omega arith)) in
    rw (first, ok.0, rest) refl

-- How many long entries a name takes.
abbrev pub pieces : List ℕ → ℕ
pieces us = (length us + lfn_chars - 1) / lfn_chars

-- A scan that has all the pieces of a name has its units.
pub Collected-used :
    (us : List ℕ) (total start : ℕ) (s : Scan)
    → NoEnd us
    → Collected us (pieces us) total start 0 s
    → used_units s.nunits 0 s.units ≡ us
Collected-used us total start s ok c =
    let size = c.nunits in
    used_units-reads us s.nunits 0 s.units ok (omega arith)
      (λ j l.
        let inside : ltb j (length us) ≡ true = ground arith in
        ap s.units (omega arith) ∙ c.units j (omega arith) (omega arith) ∙ rw inside refl)
      (λ l.
        let past : ltb (length us) (length us) ≡ false = ground arith in
        let end : (length us == length us) ≡ true = ground arith in
        ap s.units (omega arith)
        ∙ c.units (length us) (omega arith) (omega arith)
        ∙ rw (past, end) refl)
