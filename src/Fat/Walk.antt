-- ===== src/Fat/Walk.antt =====
-- dscan_next of src/fat16.c over the slots of a directory: a name that was put there in long entries is
-- found under its long name.
use rvos.Common.{
  ℕ, zero, suc, ◌+◌, ◌-◌, ◌*◌, ◌/◌, ◌%◌, ◌^◌, ◌≤◌, ◌<◌, ◌≡◌, refl, sym, ap, subst, ◌∙◌, inl, inr,
  Bool, true, false, ◌&&◌, some, List, length, leb, ◌==◌, if◌then◌else◌, arith, Bool-cases, ==_iff,
  ==_ne, ==_refl,
}
use rvos.Text.{Str}
use rvos.Fat.{Volume}
use rvos.Fat.Names.{sfn_sum}
use rvos.Fat.Unicode.{to_utf8}
use rvos.Fat.Long.{lfn_chars}
use rvos.Fat.Pieces.{Same32}
use rvos.Fat.Slots.{Slot, slot_ptr}
use rvos.Fat.Cached.{Coherent, slot_of}
use rvos.Fat.Seen.{seen}
use rvos.Fat.Scan.{
  lfn_attr, lfn_max_units, fat_name_max, Scan, chain_start, add_piece, take_long, name_of, found_at,
  dscan_loop, dscan_next,
}
use rvos.Fat.Create.{long_entry}
use rvos.Fat.Collect.{
  Collected, Words16, NoEnd, pieces, long_entry-0, long_entry-11, take_long-first, take_long-next,
  Collected-used,
}

-- An entry that is neither the end of the directory nor a deleted one.
abbrev pub InUse : Slot → Type 0
InUse d = ((d 0 == 0) ≡ false) × ((d 0 == 0xe5) ≡ false)

-- The entry of a file or a directory: no part of a long name, and no volume label.
abbrev pub IsShort : Slot → Type 0
IsShort d = InUse d × ((d 11 == lfn_attr) ≡ false) × ((d 11 / 8 % 2 == 1) ≡ false)

long_step :
    (fuel : ℕ) (v : Volume) (s : Scan) (d : Slot)
    → Coherent v
    → slot_of v s.dir s.i ≡ some d
    → InUse d
    → (d 11 == lfn_attr) ≡ true
    → dscan_loop (suc fuel) v s ≡ dscan_loop fuel (slot_ptr v s.dir s.i).1 (take_long s d)
unfolding dscan_loop
long_step fuel v s d c e live attr =
    let r = seen v s.dir s.i d c e in
    rw
      (
        dscan_loop,
        r.found,
        ap (λ (f : Slot). f 0) r.bytes,
        ap (λ (f : Slot). f 11) r.bytes,
        live.0,
        live.1,
        attr,
      )
      (ap (λ f. dscan_loop fuel (slot_ptr v s.dir s.i).1 (take_long s f)) r.bytes)

short_step :
    (fuel : ℕ) (v : Volume) (s : Scan) (d : Slot)
    → Coherent v
    → slot_of v s.dir s.i ≡ some d
    → IsShort d
    → (dscan_loop (suc fuel) v s).0 ≡ some (found_at s d)
unfolding dscan_loop
short_step fuel v s d c e live =
    let r = seen v s.dir s.i d c e in
    rw
      (
        dscan_loop,
        r.found,
        ap (λ (f : Slot). f 0) r.bytes,
        ap (λ (f : Slot). f 11) r.bytes,
        live.0.0,
        live.0.1,
        live.1,
        live.2,
      )
      (ap (λ f. some (found_at s f)) r.bytes)

add_piece-dir : (s : Scan) (d : Slot) (q : ℕ) → (add_piece s d q).dir ≡ s.dir
unfolding add_piece
add_piece-dir s d q = elim (Bool-cases (s.have && leb 1 q && leb (q * lfn_chars) lfn_max_units)) [
  | inl y ↦ rw (add_piece, y) refl
  | inr n ↦ rw (add_piece, n) refl
]

pub take_long-dir : (s : Scan) (d : Slot) → (take_long s d).dir ≡ s.dir
unfolding take_long
take_long-dir s d =
    add_piece-dir (chain_start s d) d (d 0 % 64)
    ∙ elim (Bool-cases (d 0 / 64 % 2 == 1)) [ inl y ↦ rw y refl | inr n ↦ rw n refl ]

-- The slots from `start` on hold the long entries of a name, with the checksum `total`, and behind
-- them the entry `e`.
pub record Written (v : Volume) (dir start : ℕ) (us : List ℕ) (total : ℕ) (e : Slot) : Type 0 where
  pub long :
      (q : ℕ)
      → 1 ≤ q
      → q ≤ pieces us
      → ((d : Slot) × (slot_of v dir (start + (pieces us - q)) ≡ some d)
          × Same32 d (long_entry us total q (q == pieces us)))
  pub short : slot_of v dir (start + pieces us) ≡ some e

Written-seen :
    (v w : Volume) (dir start : ℕ) (us : List ℕ) (total : ℕ) (e : Slot)
    → ((a b : ℕ) → slot_of w a b ≡ slot_of v a b)
    → Written v dir start us total e
    → Written w dir start us total e
Written-seen v w dir start us total e same h = record {
  long = λ q low high.
      let r = h.long q low high in (r.0, same dir (start + (pieces us - q)) ∙ r.1, r.2);
  short = same dir (start + pieces us) ∙ h.short;
}

long_entry-InUse :
    (us : List ℕ) (total q : ℕ) (last : Bool) (d : Slot)
    → 1 ≤ q
    → q < 10
    → Same32 d (long_entry us total q last)
    → InUse d × ((d 11 == lfn_attr) ≡ true)
long_entry-InUse us total q last d low high same =
    let byte0 = same 0 (omega arith) ∙ long_entry-0 us total q last in
    let byte11 = same 11 (omega arith) ∙ long_entry-11 us total q last in
    elim (Bool-cases last) [
      | inl y ↦
          let b : d 0 ≡ q + 64 = byte0 ∙ rw y refl in ((ground arith, ground arith), ground arith)
      | inr n ↦ let b : d 0 ≡ q = byte0 ∙ rw n refl in ((ground arith, ground arith), ground arith)
    ]

-- What the name is once all the pieces are there.
Collected-name :
    (us : List ℕ) (start : ℕ) (s : Scan) (e : Slot) (name : Str)
    → NoEnd us
    → Collected us (pieces us) (sfn_sum e) start 0 s
    → to_utf8 us 0 fat_name_max ≡ some name
    → found_at s e ≡ record { slot = start + pieces us; name = name; ent = e; chain = start }
unfolding name_of
Collected-name us start s e name ok c fits =
    let slot : s.i ≡ start + pieces us = omega (arith, c.i) in
    let chain : (if s.have then s.first else s.i) ≡ start = rw c.have c.first in
    let good : (s.sum == sfn_sum e) ≡ true = (==_iff s.sum (sfn_sum e)).1 c.sum in
    let read = Collected-used us (sfn_sum e) start s ok c in
    let named : name_of s e ≡ name = rw (name_of, c.have, good, read, fits) refl in
    λ i. record { slot = slot i; name = named i; ent = e; chain = chain i }

rest_of_chain :
    (seq fuel : ℕ) (v : Volume) (dir start : ℕ) (us : List ℕ) (s : Scan) (e : Slot) (name : Str)
    → Coherent v
    → Written v dir start us (sfn_sum e) e
    → IsShort e
    → NoEnd us
    → Words16 us
    → pieces us < 10
    → to_utf8 us 0 fat_name_max ≡ some name
    → s.dir ≡ dir
    → seq < pieces us
    → Collected us (pieces us) (sfn_sum e) start seq s
    → seq < fuel
    → (dscan_loop fuel v s).0
      ≡ some (record { slot = start + pieces us; name = name; ent = e; chain = start })
rest_of_chain seq zero v dir start us s e name c w short ok words size fits at low got enough =
    absurd (omega arith)
rest_of_chain zero (suc fuel) v dir start us s e name c w short ok words size fits at low got
      enough =
    let here : slot_of v s.dir s.i ≡ some e =
      ap (λ a. slot_of v a s.i) at ∙ ap (slot_of v dir) (omega (arith, got.i)) ∙ w.short in
    short_step fuel v s e c here short ∙ ap some (Collected-name us start s e name ok got fits)
rest_of_chain (suc seq) (suc fuel) v dir start us s e name c w short ok words size fits at low got
      enough =
    let r = w.long (suc seq) (omega arith) (omega arith) in
    let d = r.0 in
    let here : slot_of v s.dir s.i ≡ some d =
      ap (λ a. slot_of v a s.i) at ∙ ap (slot_of v dir) (omega (arith, got.i)) ∙ r.1 in
    let live =
      long_entry-InUse us (sfn_sum e) (suc seq) (suc seq == pieces us) d (omega arith) (omega arith)
        r.2 in
    let past = seen v s.dir s.i d c here in
    let inner : (suc seq == pieces us) ≡ false =
      ==_ne (suc seq) (pieces us) (λ z. omega (arith, z)) in
    let next =
      take_long-next us (pieces us) (sfn_sum e) start seq s d words (omega arith) size
        (subst (λ l. Same32 d (long_entry us (sfn_sum e) (suc seq) l)) inner r.2) got in
    ap (λ x. x.0) (long_step fuel v s d c here live.0 live.1)
    ∙ rest_of_chain seq fuel (slot_ptr v s.dir s.i).1 dir start us (take_long s d) e name
        past.coherent
        (Written-seen v (slot_ptr v s.dir s.i).1 dir start us (sfn_sum e) e past.same w) short ok
        words size fits (take_long-dir s d ∙ at) (omega arith) next (omega arith)

-- A name of at most 117 units stands in a directory in its long entries, with the checksum of the
-- short entry behind them: from the first of these slots on, dscan_next finds the short entry under
-- the long name, with the first slot as the start of the chain.
pub dscan_next-long :
    (v : Volume) (dir start : ℕ) (us : List ℕ) (s : Scan) (e : Slot) (name : Str)
    → Coherent v
    → Written v dir start us (sfn_sum e) e
    → IsShort e
    → NoEnd us
    → Words16 us
    → 0 < length us
    → length us ≤ 117
    → to_utf8 us 0 fat_name_max ≡ some name
    → s.dir ≡ dir
    → s.i ≡ start
    → (dscan_next v s).0
      ≡ some (record { slot = start + pieces us; name = name; ent = e; chain = start })
unfolding dscan_next
dscan_next-long v dir start us s e name c w short ok words some_unit few fits at from =
    let size : pieces us < 10 = omega arith in
    let low : 1 ≤ pieces us = omega arith in
    let r = w.long (pieces us) low (omega arith) in
    let d = r.0 in
    let here : slot_of v s.dir s.i ≡ some d =
      ap (λ a. slot_of v a s.i) at ∙ ap (slot_of v dir) (omega (arith, from)) ∙ r.1 in
    let first : Same32 d (long_entry us (sfn_sum e) (pieces us) true) =
      subst (λ l. Same32 d (long_entry us (sfn_sum e) (pieces us) l)) (==_refl (pieces us)) r.2 in
    let live = long_entry-InUse us (sfn_sum e) (pieces us) true d low size first in
    let past = seen v s.dir s.i d c here in
    let m : suc (pieces us - 1) ≡ pieces us = omega arith in
    let got : Collected us (pieces us) (sfn_sum e) start (pieces us - 1) (take_long s d) =
      subst (λ n. Collected us n (sfn_sum e) start (pieces us - 1) (take_long s d)) m
        (take_long-first us (pieces us - 1) (sfn_sum e) start s d words (omega arith)
          (subst (λ n. Same32 d (long_entry us (sfn_sum e) n true)) (sym m) first) from) in
    ap (λ x. x.0) (long_step (2 ^ 28 - 1) v s d c here live.0 live.1)
    ∙ rest_of_chain (pieces us - 1) (2 ^ 28 - 1) (slot_ptr v s.dir s.i).1 dir start us
        (take_long s d) e name past.coherent
        (Written-seen v (slot_ptr v s.dir s.i).1 dir start us (sfn_sum e) e past.same w) short ok
        words size fits (take_long-dir s d ∙ at) (omega arith) got (omega arith)
