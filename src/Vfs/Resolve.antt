-- ===== src/Vfs/Resolve.antt =====
-- vfs_resolve: which server answers for a path, and under which name, through at most
-- RESOLVE_HOPS binds. A result -1 is `none`, and then `out` is not written.
use rvos.Common.{
  ℕ, zero, suc, ◌+◌, ◌-◌, ◌<◌, ◌≡◌, ap, Bool, false, Option, none, some, List, [], ◌∷◌, ◌++◌, arith,
  ◌==◌, ◌&&◌, leb, if◌then◌else◌, length, take, drop, take_all,
}
use rvos.Text.{Str}
use rvos.Vfs.{Mount, server, bind, path_max, ends_slash, slash, nth_match, resolve_hops}

unfoldable pub starts_slash : Str → Bool
starts_slash [] = false
starts_slash (c ∷ s) = c == slash

-- The string that starts with the bytes.
unfoldable pub until_nul : List ℕ → Str
until_nul [] = []
until_nul (b ∷ bs) = if b == 0 then [] else b ∷ until_nul bs

-- `buf + strlen(m->prefix)`. A name one longer than the path, "/proc/" for "/proc", points behind the
-- terminator, at `stale`: the bytes that the 128 of `buf` have there, from before.
unfoldable pub rest_of : List ℕ → Str → Str → Str
rest_of stale buf prefix =
    let over = length prefix - length buf - 1 in
    if leb (length prefix) (length buf)
    then drop (length prefix) buf
    else until_nul (drop over stale)

-- The bytes behind the terminator of the next path, once strcpy has put it over this one.
unfoldable pub left_behind : List ℕ → Str → Str → List ℕ
left_behind stale buf next = drop (length next + 1) (buf ++ (0 ∷ stale))

abbrev pub skip_slash : Str → Str → Str
skip_slash head rest = if ends_slash head && starts_slash rest then drop 1 rest else rest

-- The path with its head swapped, cut to the size of `next`.
unfoldable pub swap_head : Str → Str → Str
swap_head target rest =
    let head = take (path_max - 1) target in
    head ++ take (path_max - 1 - length head) (skip_slash head rest)

-- Where the result fits in a path, nothing is cut.
pub swap_head_fits :
    (target rest : Str)
    → length target + length rest < path_max
    → (ends_slash target && starts_slash rest) ≡ false
    → swap_head target rest ≡ target ++ rest
unfolding swap_head
swap_head_fits target rest fits plain =
    let whole : take (path_max - 1) target ≡ target =
      take_all (path_max - 1) target (omega arith) in
    rw (whole, plain)
      (ap (λ t. target ++ t) (take_all (path_max - 1 - length target) rest (omega arith)))

module _ (mnt : List Mount) (cap : ℕ) where
  -- The loop, by the hops that are left, with the path in the buffer and the bytes behind it.
  unfoldable pub resolve_from : ℕ → Str → List ℕ → ℕ → Option (ℕ × Str)
  resolve_from zero buf stale nth = none
  resolve_from (suc hops) buf stale nth = elim (nth_match mnt buf nth) [
    | none ↦ none
    | some m ↦ elim m.kind [
      | server ↦ some (m.answerer, take (cap - 1) buf)
      | bind ↦
          let next = swap_head m.target (rest_of stale buf m.prefix) in
          resolve_from hops next (left_behind stale buf next) 0
    ]
  ]

  -- The buffer is on the stack: what is behind the path at first is what was there.
  unfoldable pub resolve : List ℕ → Str → ℕ → Option (ℕ × Str)
  resolve stale path nth = resolve_from resolve_hops (take (path_max - 1) path) stale nth

  pub resolve_at_server :
      (hops : ℕ) (buf : Str) (stale : List ℕ) (nth : ℕ) (m : Mount)
      → nth_match mnt buf nth ≡ some m
      → m.kind ≡ server
      → resolve_from (suc hops) buf stale nth ≡ some (m.answerer, take (cap - 1) buf)
  unfolding resolve_from
  resolve_at_server hops buf stale nth m e k = ground arith

  -- One hop over a bind.
  pub resolve_at_bind :
      (hops : ℕ) (buf : Str) (stale : List ℕ) (nth : ℕ) (m : Mount)
      → nth_match mnt buf nth ≡ some m
      → m.kind ≡ bind
      → let next = swap_head m.target (rest_of stale buf m.prefix) in
        resolve_from (suc hops) buf stale nth
        ≡ resolve_from hops next (left_behind stale buf next) 0
  unfolding resolve_from
  resolve_at_bind hops buf stale nth m e k = ground arith
