-- ===== src/Vfs/Binding.antt =====
-- What a resolution may answer, and what a bind means to it.
use rvos.Common.{
  ℕ, zero, suc, ◌+◌, ◌-◌, ◌≤◌, ◌<◌, ◌≡◌, refl, ap, ◌∙◌, ◌⊎◌, inl, inr, Bool, true, false, none,
  some, List, [], ◌∷◌, ◌++◌, arith, ◌==◌, ◌&&◌, leb, if◌then◌else◌, length, take, Bool-cases,
  Option-cases, sym, subst, All, get_elem?, drop-append, length-append,
}
use rvos.Text.Compare.{streq_refl}
use rvos.Text.{Str, streq}
use rvos.Vfs.{
  Mount, Kind, server, bind, path_max, prefix_matches, ends_slash, nth_match, nth_of, longest,
  bind_name, bind_entry, repl, resolve_hops,
}
use rvos.Vfs.Match.{matches_unique}
use rvos.Vfs.Longest.{nth_match-longest, nth_match-answers, nth_match-none}
use rvos.Vfs.Answers.{answers}
use rvos.Vfs.Union.{answers-bind_name}
use rvos.Vfs.Resolve.{
  starts_slash, rest_of, left_behind, swap_head, swap_head_fits, resolve_from, resolve,
  resolve_at_bind,
}

-- What a good answer is: a server entry of the table, whose name matches the name under which it
-- is asked, that name cut to the caller's buffer.
pub record Answer (mnt : List Mount) (cap : ℕ) (r : ℕ × Str) : Type 0 where
  pub entry : Mount
  pub index : ℕ
  pub name : Str
  pub in_table : get_elem? mnt index ≡ some entry
  pub is_server : entry.kind ≡ server
  pub matches : prefix_matches name entry.prefix ≡ true
  pub answerer : r.0 ≡ entry.answerer
  pub asked : r.1 ≡ take (cap - 1) name

nth_of-index :
    (path : Str) (b : ℕ) (ms : List Mount) (k nth : ℕ) (m : Mount)
    → nth_of path b ms k nth ≡ some m
    → (i : ℕ) × (get_elem? ms i ≡ some m)
unfolding nth_of
nth_of-index path b [] k nth m e = absurd (ground arith)
nth_of-index path b (x ∷ ms) k nth m e = elim (Bool-cases (hit && (k == nth))) [
  | inl y ↦ (0, ground arith)
  | inr n ↦
      let (i, h) = nth_of-index path b ms (if hit then k + 1 else k) nth m (ground arith) in
      (suc i, h)
]
  where
    hit : Bool
    hit = prefix_matches path x.prefix && (length x.prefix == b)

pub nth_match-index :
    (ms : List Mount) (path : Str) (nth : ℕ) (m : Mount)
    → nth_match ms path nth ≡ some m
    → (i : ℕ) × (get_elem? ms i ≡ some m)
unfolding nth_match
nth_match-index ms path nth m e = elim (Option-cases (longest path ms none)) [
  | inl z ↦ absurd (ground arith)
  | inr (b, l) ↦ nth_of-index path b ms 0 nth m (ground arith)
]

pub Kind-cases : (k : Kind) → (k ≡ server) ⊎ (k ≡ bind)
Kind-cases server = inl refl
Kind-cases bind = inr refl

module _ (mnt : List Mount) (cap : ℕ) where
  resolve_from-Answer :
      (hops : ℕ) (buf : Str) (stale : List ℕ) (nth : ℕ) (r : ℕ × Str)
      → resolve_from mnt cap hops buf stale nth ≡ some r
      → Answer mnt cap r
  unfolding resolve_from
  resolve_from-Answer zero buf stale nth r e = absurd (ground arith)
  resolve_from-Answer (suc hops) buf stale nth r e = elim (Option-cases (nth_match mnt buf nth)) [
    | inl z ↦ absurd (ground arith)
    | inr (m, h) ↦ elim (Kind-cases m.kind) [
      | inl k ↦
          let d : (m.answerer, take (cap - 1) buf) ≡ r = ground arith in
          record {
            entry = m;
            index = (nth_match-index mnt buf nth m h).0;
            name = buf;
            in_table = (nth_match-index mnt buf nth m h).1;
            is_server = k;
            matches = (nth_match-longest buf mnt nth m h).0;
            answerer = ap (λ (t : ℕ × Str). t.0) (sym d);
            asked = ap (λ (t : ℕ × Str). t.1) (sym d);
          }
      | inr k ↦
          let next = swap_head m.target (rest_of stale buf m.prefix) in
          resolve_from-Answer hops next (left_behind stale buf next) 0 r
            (sym (resolve_at_bind mnt cap hops buf stale nth m h k) ∙ e)
    ]
  ]

  -- A resolution that succeeds answers with a server entry of the table, and asks it about a name
  -- that the entry covers, cut to the caller's buffer.
  pub resolve-Answer :
      (stale : List ℕ) (path : Str) (nth : ℕ) (r : ℕ × Str)
      → resolve mnt cap stale path nth ≡ some r
      → Answer mnt cap r
  unfolding resolve
  resolve-Answer stale path nth r =
      resolve_from-Answer resolve_hops (take (path_max - 1) path) stale nth r

head_named :
    (P : Mount → Type 0) (p : Str) (ms : List Mount) (m : Mount) (ns : List Mount)
    → answers p ms ≡ m ∷ ns
    → All P ms
    → P m
unfolding answers
head_named P p [] m ns e h = absurd (ground arith)
head_named P p (x ∷ ms) m ns e h = elim (Bool-cases (streq x.prefix p)) [
  | inl y ↦ let same : x ≡ m = ground arith in subst P same h.0
  | inr n ↦ head_named P p ms m ns (ground arith) h.1
]

pub All_at :
    (P : Mount → Type 0) (ms : List Mount) (i : ℕ) (m : Mount)
    → get_elem? ms i ≡ some m
    → All P ms
    → P m
All_at P [] i m e h = absurd (ground arith)
All_at P (x ∷ ms) zero m e h = let same : x ≡ m = ground arith in subst P same h.0
All_at P (x ∷ ms) (suc i) m e h = All_at P ms i m e h.1

-- What nth_match picks matches the path, and no entry of the table that matches is longer.
pub nth_match_best :
    (path : Str) (mnt : List Mount) (nth i : ℕ) (m other : Mount)
    → nth_match mnt path nth ≡ some m
    → get_elem? mnt i ≡ some other
    → prefix_matches path other.prefix ≡ true
    → (prefix_matches path m.prefix ≡ true) × (length other.prefix ≤ length m.prefix)
nth_match_best path mnt nth i m other e at matching =
    let (hit, best) = nth_match-longest path mnt nth m e in
    (
      hit,
      All_at (λ x. prefix_matches path x.prefix ≡ true → length x.prefix ≤ length m.prefix) mnt i
          other at best matching,
    )

-- The first answer of a name is what a path gets whose longest matching name it is.
nth_match-head :
    (ms : List Mount) (path p : Str) (m : Mount) (ns : List Mount)
    → answers p ms ≡ m ∷ ns
    → m.prefix ≡ p
    → prefix_matches path p ≡ true
    → All (λ m'. prefix_matches path m'.prefix ≡ true → length m'.prefix ≤ length p) ms
    → nth_match ms path 0 ≡ some m
nth_match-head ms path p m ns e named covers longest_name =
    elim (Option-cases (nth_match ms path 0)) [
      | inl z ↦
          let silent : prefix_matches path m.prefix ≡ false =
            head_named (λ x. prefix_matches path x.prefix ≡ false) p ms m ns e
              ((nth_match-none path ms).0 z) in
          absurd (ground (arith, ap (prefix_matches path) named))
      | inr (x, h) ↦
          let (hit, best) = nth_match-longest path ms 0 x h in
          let (i, at) = nth_match-index ms path 0 x h in
          let low : prefix_matches path x.prefix ≡ true → length x.prefix ≤ length p =
            All_at _ ms i x at longest_name in
          let high : prefix_matches path m.prefix ≡ true → length m.prefix ≤ length x.prefix =
            head_named
              (λ y. prefix_matches path y.prefix ≡ true → length y.prefix ≤ length x.prefix) p ms m
              ns e best in
          let same : x.prefix ≡ p = matches_unique path x.prefix p hit covers (
            omega
              (arith, low hit, high (ap (prefix_matches path) named ∙ covers), ap length named)) in
          nth_match-answers path ms x 0 h
          ∙ ap (λ q. get_elem? (answers q ms) 0) same
          ∙ ap (λ l. get_elem? l 0) e
    ]

-- Swapping the head of a name that fits gives the target and the rest.
swap_head-rest :
    (stale : List ℕ) (old new rest : Str)
    → length old + length rest < path_max
    → (ends_slash old && starts_slash rest) ≡ false
    → swap_head old (rest_of stale (new ++ rest) new) ≡ old ++ rest
unfolding rest_of
swap_head-rest stale old new rest fits plain =
    let inside : leb (length new) (length (new ++ rest)) ≡ true =
      ground (arith, length-append new rest) in
    rw (inside, drop-append new rest) (swap_head_fits old rest fits plain)

-- "bind(old, new): new now means whatever old means". After a bind that replaces, a path below the
-- new name resolves, in one hop more, as the same path below the old name: where no longer name of
-- the table takes the path first, where the result fits in a path, and where the two parts do not
-- both bring a slash. What is behind
-- the terminator is then what strcpy has left there.
pub bind_means :
    (stale : List ℕ) (cap hops : ℕ) (mnt mnt' : List Mount) (old new rest : Str)
    → bind_name mnt old new repl ≡ some mnt'
    → prefix_matches (new ++ rest) new ≡ true
    → All (λ m. prefix_matches (new ++ rest) m.prefix ≡ true → length m.prefix ≤ length new) mnt'
    → length old + length rest < path_max
    → (ends_slash old && starts_slash rest) ≡ false
    → resolve_from mnt' cap (suc hops) (new ++ rest) stale 0
      ≡ resolve_from mnt' cap hops (old ++ rest) (left_behind stale (new ++ rest) (old ++ rest)) 0
bind_means stale cap hops mnt mnt' old new rest bound covers longest_name fits plain =
    let head : nth_match mnt' (new ++ rest) 0 ≡ some (bind_entry old new) =
      nth_match-head mnt' (new ++ rest) new (bind_entry old new) []
        (answers-bind_name mnt mnt' old new repl new bound ∙ rw (streq_refl new)) refl covers
        longest_name in
    resolve_at_bind mnt' cap hops (new ++ rest) stale 0 (bind_entry old new) head refl
    ∙ ap (λ t. resolve_from mnt' cap hops t (left_behind stale (new ++ rest) t) 0)
        (swap_head-rest stale old new rest fits plain)
