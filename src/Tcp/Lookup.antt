-- ===== src/Tcp/Lookup.antt =====
-- src/net_ip.c: the connection that tcb_find finds for a segment.
use rvos.Common.{
  ℕ, suc, ◌+◌, ◌≡◌, refl, ap, ◌∙◌, ◌⊎◌, inl, inr, true, false, Option, none, some, List, [], ◌∷◌,
  if◌then◌else◌, arith, Bool-cases,
}
use rvos.Tcp.{Conn}
use rvos.Tcp.Table.{Table, is_exact, is_listener, find_from, tcb_find, tcb_at}

-- No connection of the table is the one.
abbrev pub NoneExact : List ℕ → ℕ → ℕ → Table → Type 0
NoneExact raddr rport lport [] = Unit {0}
NoneExact raddr rport lport (none ∷ tcbs) = NoneExact raddr rport lport tcbs
NoneExact raddr rport lport (some c ∷ tcbs) =
    (is_exact raddr rport lport c ≡ false) × NoneExact raddr rport lport tcbs

abbrev pub NoListener : ℕ → Table → Type 0
NoListener lport [] = Unit {0}
NoListener lport (none ∷ tcbs) = NoListener lport tcbs
NoListener lport (some c ∷ tcbs) = (is_listener lport c ≡ false) × NoListener lport tcbs

-- What stands in the slot that is found from slot `i` on.
abbrev pub Found : List ℕ → ℕ → ℕ → ℕ → Option ℕ → Table → Option ℕ → Type 0
Found raddr rport lport i before tcbs found =
    ((j : ℕ) × (c : Conn) × (found ≡ some (i + j))
      × (tcb_at tcbs j ≡ some c)
      × (is_exact raddr rport lport c ≡ true))
    ⊎ (NoneExact raddr rport lport tcbs
        × (((j : ℕ) × (c : Conn) × (found ≡ some (i + j))
              × (tcb_at tcbs j ≡ some c)
              × (is_listener lport c ≡ true))
            ⊎ ((found ≡ before) × NoListener lport tcbs)))

exact_not_listener :
    (raddr : List ℕ) (rport lport : ℕ) (c : Conn)
    → is_exact raddr rport lport c ≡ true
    → is_listener lport c ≡ false
exact_not_listener raddr rport lport c h = ground arith

find_from-Found :
    (i : ℕ) (before : Option ℕ) (raddr : List ℕ) (rport lport : ℕ) (tcbs : Table)
    → Found raddr rport lport i before tcbs (find_from i before raddr rport lport tcbs)
unfolding find_from tcb_at
find_from-Found i before raddr rport lport [] = inr (tt, inr (refl, tt))
find_from-Found i before raddr rport lport (none ∷ tcbs) =
    elim (find_from-Found (i + 1) before raddr rport lport tcbs) [
      | inl (j, c, e, at, exact) ↦ inl (suc j, c, e ∙ ap some (omega arith), at, exact)
      | inr (others, rest) ↦ inr (
        others,
        elim rest [
          | inl (j, c, e, at, l) ↦ inl (suc j, c, e ∙ ap some (omega arith), at, l)
          | inr unlistened ↦ inr unlistened
        ],
      )
    ]
find_from-Found i before raddr rport lport (some d ∷ tcbs) =
    elim (Bool-cases (is_exact raddr rport lport d)) [
      | inl exact ↦ inl (0, d, rw exact (ap some (omega arith)), refl, exact)
      | inr other ↦
          let from = λ (l : Option ℕ). find_from (i + 1) l raddr rport lport tcbs in
          let next = if is_listener lport d then some i else before in
          let skip : find_from i before raddr rport lport (some d ∷ tcbs) ≡ from next =
            ap (λ b. if b then some i else from next) other in
          elim (find_from-Found (i + 1) next raddr rport lport tcbs) [
            | inl (j, c, e, at, exact) ↦ inl (suc j, c, skip ∙ e ∙ ap some (omega arith), at, exact)
            | inr (others, rest) ↦ inr (
              (other, others),
              elim rest [
                | inl (j, c, e, at, l) ↦ inl (suc j, c, skip ∙ e ∙ ap some (omega arith), at, l)
                | inr unlistened ↦ elim (Bool-cases (is_listener lport d)) [
                  | inl listens ↦
                      let here : next ≡ some i = ap (λ b. if b then some i else before) listens in
                      inl (0, d, skip ∙ unlistened.0 ∙ here ∙ ap some (omega arith), refl, listens)
                  | inr deaf ↦
                      let kept : next ≡ before = ap (λ b. if b then some i else before) deaf in
                      inr (skip ∙ unlistened.0 ∙ kept, (deaf, unlistened.1))
                ]
              ],
            )
          ]
    ]

-- tcb_find answers the slot of a connection with the four numbers, whatever listens on the port;
-- where there is no such connection, a slot that listens on the port; and nothing only where there
-- is neither.
pub tcb_find-Found :
    (raddr : List ℕ) (rport lport : ℕ) (tcbs : Table)
    → Found raddr rport lport 0 none tcbs (tcb_find raddr rport lport tcbs)
unfolding tcb_find
tcb_find-Found raddr rport lport tcbs = find_from-Found 0 none raddr rport lport tcbs
