-- ===== src/Vfs/Tests.antt =====
-- A small namespace: two servers at /dev, one at /, and a bind of /mnt to /data.
use rvos.Common.{◌≡◌, ◌≢◌, ◌↔◌, refl, true, List, [], ◌∷◌, ◌++◌, arith, get_elem?, take}
use rvos.Text.{Str, streq, str_has_prefix}
use rvos.Vfs.{
  Mount, repl, before, path_max, remove_named, make_room, place, after_last, first_named, insert_at,
  mount, bind_name, unmount, server_entry, bind_entry, prefix_matches, without_slash, boundary,
  ends_slash, longest, nth_of, nth_match,
}
use rvos.Vfs.Answers.{answers, joined}
use rvos.Vfs.Union.{answers-mount, answers-bind_name, answers-unmount}
use rvos.Vfs.Capacity.{IsValid, left_by, operations-IsValid}
use rvos.Vfs.Match.{Covers, prefix_matches-Covers}
use rvos.Vfs.Longest.{nth_match-answers}
use rvos.Vfs.Resolve.{left_behind, resolve, resolve_from, starts_slash}
use rvos.Vfs.Binding.{bind_means}
use rvos.Vfs.Overread.{resolve_determined}

abbrev root : Str
root = b'/' ∷ []

abbrev dev : Str
dev = b'/' ∷ b'd' ∷ []

abbrev tty : Str
tty = b'/' ∷ b'd' ∷ b'/' ∷ b't' ∷ []

abbrev mnt : Str
mnt = b'/' ∷ b'm' ∷ []

abbrev table : List Mount
table = server_entry root 3 ∷ server_entry dev 7 ∷ server_entry dev 9 ∷ []

abbrev full : List Mount
full = table ++ table ++ take 2 table

answers-mount_example :
    answers dev
      (server_entry root 3 ∷ server_entry dev 5 ∷ server_entry dev 7 ∷ server_entry dev 9 ∷ [])
    ≡ joined before (server_entry dev 5) (answers dev table)
unfolding mount insert_at make_room place first_named after_last streq
answers-mount_example =
    answers-mount table
      (server_entry root 3 ∷ server_entry dev 5 ∷ server_entry dev 7 ∷ server_entry dev 9 ∷ []) dev
      5 before dev refl

answers-bind_name_example :
    answers dev (server_entry root 3 ∷ bind_entry root dev ∷ [])
    ≡ joined repl (bind_entry root dev) (answers dev table)
unfolding bind_name insert_at make_room place remove_named streq
answers-bind_name_example =
    answers-bind_name table (server_entry root 3 ∷ bind_entry root dev ∷ []) root dev repl dev refl

answers-unmount_example :
    (answers dev (unmount table dev).0 ≡ [])
    × (((unmount table dev).1 ≡ true) ↔ (answers dev table ≢ []))
unfolding streq
answers-unmount_example = answers-unmount table dev dev

operations-IsValid_example :
    IsValid (left_by full (mount full dev 5 repl))
    × IsValid (left_by full (bind_name full root dev repl))
    × IsValid (unmount full dev).0
operations-IsValid_example = operations-IsValid full dev root 5 repl (omega arith)

prefix_matches-Covers_example : (prefix_matches tty dev ≡ true) ↔ Covers tty dev
prefix_matches-Covers_example = prefix_matches-Covers tty dev

nth_match-answers_example : nth_match table tty 1 ≡ get_elem? (answers dev table) 1
unfolding nth_match longest nth_of prefix_matches without_slash str_has_prefix boundary ends_slash
nth_match-answers_example = nth_match-answers tty table (server_entry dev 7) 1 refl

abbrev bound : List Mount
bound = table ++ (bind_entry dev mnt ∷ [])

bind_means_example :
    resolve_from bound path_max 4 (mnt ++ (b'/' ∷ b't' ∷ [])) [] 0
    ≡ resolve_from bound path_max 3
        (dev ++ (b'/' ∷ b't' ∷ []))
        (left_behind [] (mnt ++ (b'/' ∷ b't' ∷ [])) (dev ++ (b'/' ∷ b't' ∷ [])))
        0
unfolding bind_name insert_at make_room place remove_named streq prefix_matches without_slash
    str_has_prefix boundary ends_slash starts_slash
bind_means_example =
    bind_means [] path_max 3 table bound dev mnt (b'/' ∷ b't' ∷ []) refl refl
      (
        (λ h. omega arith),
        ((λ h. absurd (ground arith)), ((λ h. absurd (ground arith)), ((λ h. omega arith), tt))),
      )
      (omega arith) refl

-- The path of the bind, under two stacks.
resolve_determined_example : resolve bound path_max [] mnt 0 ≡ resolve bound path_max tty mnt 0
unfolding ends_slash
resolve_determined_example =
    resolve_determined bound path_max [] tty mnt 0
      ((λ h. absurd (ground arith)), ((λ h. refl), ((λ h. refl), ((λ h. refl), tt))))
