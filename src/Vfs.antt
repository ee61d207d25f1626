-- ===== src/Vfs.antt =====
-- src/vfs.c and src/vfs.h: a namespace is a table of mounts and binds, in search order.
-- `struct namespace` is the list of its first `n` entries. A call of the kernel that fails with -1
-- is `none`.
pub mod Answers
pub mod Union
pub mod Capacity
pub mod Longest
pub mod Match
pub mod Resolve
pub mod Binding
pub mod Overread
pub mod Tests
use rvos.Common.{
  ℕ, zero, suc, ◌+◌, ◌-◌, Bool, true, false, ◌&&◌, ◌||◌, Option, none, some, List, [], ◌∷◌, ◌++◌,
  ltb, leb, ◌==◌, if◌then◌else◌, length, get_elem?, get_or, take, drop,
}
use rvos.Text.{Str, streq, str_has_prefix}

abbrev pub path_max : ℕ
path_max = 128

abbrev pub nmount : ℕ
nmount = 8

abbrev pub resolve_hops : ℕ
resolve_hops = 4

-- MREPL, MBEFORE, MAFTER
abbrev pub repl : ℕ
repl = 0

abbrev pub before : ℕ
before = 1

abbrev pub after : ℕ
after = 2

pub data Kind : Type 0 where
  server bind : Kind

-- `answerer` is the field `server`, an int.
pub record Mount : Type 0 where
  pub prefix : Str
  pub kind : Kind
  pub answerer : ℕ
  pub target : Str

-- Shifting every entry of that name out.
pub remove_named : Str → List Mount → List Mount
remove_named p [] = []
remove_named p (m ∷ ms) =
    let rest = remove_named p ms in if streq m.prefix p then rest else m ∷ rest

-- The downward scan of MAFTER: one past the last entry of that name.
pub after_last : Str → List Mount → Option ℕ
after_last p [] = none
after_last p (m ∷ ms) = elim (after_last p ms) [
  | some i ↦ some (suc i)
  | none ↦ if streq m.prefix p then some 1 else none
]

-- The upward scan of MBEFORE: the first entry of that name.
pub first_named : Str → List Mount → Option ℕ
first_named p [] = none
first_named p (m ∷ ms) =
    let rest : Option ℕ = elim (first_named p ms) [ some i ↦ some (suc i) | none ↦ none ] in
    if streq m.prefix p then some 0 else rest

abbrev pub or_end : Option ℕ → ℕ → ℕ
or_end none n = n
or_end (some i) n = i

pub place : Str → ℕ → List Mount → ℕ
place p flags ms =
    if flags == after
    then or_end (after_last p ms) (length ms)
    else if flags == before
    then or_end (first_named p ms) (length ms)
    else length ms

-- MREPL first takes the name back.
pub make_room : Str → ℕ → List Mount → List Mount
make_room p flags ms = if flags == repl then remove_named p ms else ms

-- The entries before and after the hole that is returned; every caller fills all of it.
pub insert_at : List Mount → Str → ℕ → Option (List Mount × List Mount)
insert_at mnt p flags =
    let ms = make_room p flags mnt in
    if leb nmount (length ms)
    then none
    else some (take (place p flags ms) ms, drop (place p flags ms) ms)

abbrev pub fill : Option (List Mount × List Mount) → Mount → Option (List Mount)
fill none m = none
fill (some (front, back)) m = some (front ++ (m ∷ back))

abbrev pub server_entry : Str → ℕ → Mount
server_entry prefix server_task = record {
  prefix = prefix;
  kind = server;
  answerer = server_task;
  target = [];
}

unfoldable pub mount : List Mount → Str → ℕ → ℕ → Option (List Mount)
mount mnt prefix server_task flags =
    fill (insert_at mnt prefix flags) (server_entry prefix server_task)

-- -1 as an int.
abbrev pub no_server : ℕ
no_server = 0xffff_ffff

abbrev pub bind_entry : Str → Str → Mount
bind_entry old new = record { prefix = new; kind = bind; answerer = no_server; target = old }

unfoldable pub bind_name : List Mount → Str → Str → ℕ → Option (List Mount)
bind_name mnt old new flags = fill (insert_at mnt new flags) (bind_entry old new)

pub any_named : Str → List Mount → Bool
any_named p [] = false
any_named p (m ∷ ms) = streq m.prefix p || any_named p ms

-- The new table, and whether anything was found.
pub unmount : List Mount → Str → List Mount × Bool
unmount mnt name = (remove_named name mnt, any_named name mnt)

abbrev slash : ℕ
slash = b'/'

-- `s[strlen(s) - 1] == '/'`
pub ends_slash : Str → Bool
ends_slash [] = false
ends_slash (c ∷ []) = c == slash
ends_slash (c ∷ d ∷ s) = ends_slash (d ∷ s)

-- `path[l]`, the NUL at the end included.
pub boundary : Str → Bool
boundary [] = true
boundary (c ∷ s) = c == slash

-- "/proc" for "/proc/": `prefix[l - 1] == '/' && strlen(path) == l - 1 && ...`
pub without_slash : Str → Str → Bool
without_slash path prefix =
    ends_slash prefix && (length path == length prefix - 1) && str_has_prefix prefix path

pub prefix_matches : Str → Str → Bool
prefix_matches path prefix =
    if length prefix == 0
    then false
    else if without_slash path prefix
    then true
    else if str_has_prefix path prefix
    then (if ends_slash prefix then true else boundary (drop (length prefix) path))
    else false

abbrev better : ℕ → Option ℕ → Option ℕ
better l none = some l
better l (some b) = if ltb b l then some l else some b

-- `any` and `bestlen` of the first loop of nth_match, as an option.
pub longest : Str → List Mount → Option ℕ → Option ℕ
longest path [] best = best
longest path (m ∷ ms) best =
    longest path ms (if prefix_matches path m.prefix then better (length m.prefix) best else best)

-- The second loop: `k` counts the entries of length `best` that match.
pub nth_of : Str → ℕ → List Mount → ℕ → ℕ → Option Mount
nth_of path best [] k nth = none
nth_of path best (m ∷ ms) k nth =
    let hit = prefix_matches path m.prefix && (length m.prefix == best) in
    let rest = nth_of path best ms (if hit then k + 1 else k) nth in
    if hit && (k == nth) then some m else rest

pub nth_match : List Mount → Str → ℕ → Option Mount
nth_match mnt path nth = elim (longest path mnt none) [
  | none ↦ none
  | some best ↦ nth_of path best mnt 0 nth
]
