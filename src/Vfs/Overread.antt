-- ===== src/Vfs/Overread.antt =====
-- vfs_resolve reads past the terminator of its path buffer where a bind's name is the path with a
-- slash: what its buffer has there, from before.
use rvos.Common.{
  ℕ, zero, suc, ◌-◌, ◌≤◌, ◌≡◌, refl, ap, ◌∙◌, inl, inr, true, false, List, arith, length, take,
  Option-cases, sym, All, length-append,
}
use rvos.Text.{Str}
use rvos.Vfs.{Mount, bind, path_max, prefix_matches, ends_slash, slash, nth_match, resolve_hops}
use rvos.Vfs.Match.{below, itself, prefix_matches-Covers, ends_slash-append}
use rvos.Vfs.Longest.{nth_match-longest}
use rvos.Vfs.Resolve.{
  rest_of, left_behind, swap_head, resolve_from, resolve, resolve_at_server, resolve_at_bind,
}
use rvos.Vfs.Binding.{nth_match-index, All_at, Kind-cases}

-- No bind of the table is at a name with a slash at its end.
abbrev pub BindsPlain : List Mount → Type 0
BindsPlain = All λ m. m.kind ≡ bind → ends_slash m.prefix ≡ false

covered-le :
    (path p : Str) → prefix_matches path p ≡ true → ends_slash p ≡ false → length p ≤ length path
covered-le path p h plain = elim ((prefix_matches-Covers path p).0 h) [
  | below rest ne e b ↦ omega (arith, ap length e, length-append p rest)
  | itself e ↦ absurd (ground (arith, ap ends_slash e, ends_slash-append path slash))
]

rest_of_inside :
    (s t : List ℕ) (buf p : Str) → length p ≤ length buf → rest_of s buf p ≡ rest_of t buf p
unfolding rest_of
rest_of_inside s t buf p h = ground arith

module _ (mnt : List Mount) (cap : ℕ) (plain : BindsPlain mnt) where
  same_from :
      (hops : ℕ) (buf : Str) (s t : List ℕ) (nth : ℕ)
      → resolve_from mnt cap hops buf s nth ≡ resolve_from mnt cap hops buf t nth
  unfolding resolve_from
  same_from zero buf s t nth = refl
  same_from (suc hops) buf s t nth = elim (Option-cases (nth_match mnt buf nth)) [
    | inl z ↦ ground arith
    | inr (m, h) ↦ elim (Kind-cases m.kind) [
      | inl k ↦
          resolve_at_server mnt cap hops buf s nth m h k
          ∙ sym (resolve_at_server mnt cap hops buf t nth m h k)
      | inr k ↦
          let (i, at) = nth_match-index mnt buf nth m h in
          let short : length m.prefix ≤ length buf =
            covered-le buf m.prefix (nth_match-longest buf mnt nth m h).0
              (All_at (λ x. x.kind ≡ bind → ends_slash x.prefix ≡ false) mnt i m at plain k) in
          let next = swap_head m.target (rest_of t buf m.prefix) in
          resolve_at_bind mnt cap hops buf s nth m h k
          ∙ ap
              (λ r.
                let path = swap_head m.target r in
                resolve_from mnt cap hops path (left_behind s buf path) 0)
              (rest_of_inside s t buf m.prefix short)
          ∙ same_from hops next (left_behind s buf next) (left_behind t buf next) 0
          ∙ sym (resolve_at_bind mnt cap hops buf t nth m h k)
    ]
  ]

-- Where no bind is at a name that ends with a slash, a resolution reads nothing behind the
-- terminator of a path: whatever two stacks have there, the result is the same.
pub resolve_determined :
    (mnt : List Mount) (cap : ℕ) (s t : List ℕ) (path : Str) (nth : ℕ)
    → BindsPlain mnt
    → resolve mnt cap s path nth ≡ resolve mnt cap t path nth
unfolding resolve
resolve_determined mnt cap s t path nth plain =
    same_from mnt cap plain resolve_hops (take (path_max - 1) path) s t nth
