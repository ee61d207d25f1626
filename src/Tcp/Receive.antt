-- ===== src/Tcp/Receive.antt =====
-- src/net_ip.c: rcv_accept, ooo_drain, ooo_store and rcv_data: what becomes of the bytes of a segment.
use rvos.Common.{
  ℕ, zero, suc, ◌+◌, ◌-◌, min, Bool, true, false, ◌||◌, Option, none, some, List, [], ◌∷◌, ◌++◌,
  length, take, drop, ltb, ◌==◌, if◌then◌else◌,
}
use rvos.Tcp.{Conn, Held, add32, sub32, seq_lt, seq_le, seq_gt, rx_queue, ooo_seg}

-- The first byte that is the interrupt character.
unfoldable pub find_intr : List ℕ → Option ℕ
find_intr [] = none
find_intr (b ∷ bs) =
    let rest = find_intr bs in
    if b == 3 then some 0 else elim rest [ none ↦ none | some i ↦ some (i + 1) ]

-- The bytes without the interrupt character that was acted on, where it is among them.
abbrev pub swallow : Option ℕ → List ℕ → List ℕ
swallow none bs = bs
swallow (some i) bs = if ltb i (length bs) then take i bs ++ drop (i + 1) bs else bs

-- The program that was nominated is killed, where it is alive.
abbrev pub interrupt : (ℕ → Bool) → Option ℕ → Conn → Conn
interrupt alive none c = c
interrupt alive (some i) c = record c {
  killed = if alive c.intr_task then c.intr_task ∷ c.killed else c.killed;
  intr_task = 0;
  intr_fired = true;
}

-- How many bytes are taken: fewer than offered where the queue is full.
unfoldable pub rcv_accept : (ℕ → Bool) → Conn → List ℕ → ℕ × Conn
rcv_accept alive c bytes =
    let cut = if ltb 0 c.intr_task then find_intr bytes else none in
    let hit = interrupt alive cut c in
    let n = min (length bytes) (rx_queue - length c.rxq) in
    if n == 0 then (0, hit) else (n, record hit { rxq = c.rxq ++ swallow cut (take n bytes) })

-- The bytes are taken at rcv_nxt, which moves over them.
unfoldable pub take_in : (ℕ → Bool) → Conn → List ℕ → ℕ × Conn
take_in alive c bytes =
    let (n, c1) = rcv_accept alive c bytes in (n, record c1 { rcv_nxt = add32 c1.rcv_nxt n })

-- One slot of the queue of held segments: whether it made progress is the last part.
unfoldable pub drain_slot : (ℕ → Bool) → Conn → Option Held → Conn × Option Held × Bool
drain_slot alive c none = (c, none, false)
drain_slot alive c (some (s, bytes)) =
    let skip = sub32 c.rcv_nxt s in
    let (n, c1) = take_in alive c (drop skip bytes) in
    if seq_gt s c.rcv_nxt
    then (c, some (s, bytes), false)
    else if seq_le (add32 s (length bytes)) c.rcv_nxt
    then (c, none, true)
    else (c1, if n == length bytes - skip then none else some (s, bytes), true)

-- One round over the slots.
unfoldable pub drain_pass :
    (ℕ → Bool) → Conn → List (Option Held) → Conn × List (Option Held) × Bool
drain_pass alive c [] = (c, [], false)
drain_pass alive c (o ∷ os) =
    let (c1, kept, moved) = drain_slot alive c o in
    let (c2, rest, more) = drain_pass alive c1 os in (c2, kept ∷ rest, moved || more)

-- Rounds as long as there is progress: `none` where the rounds run out.
unfoldable pub ooo_drain : (ℕ → Bool) → ℕ → Conn → Option Conn
ooo_drain alive zero c = none
ooo_drain alive (suc rounds) c =
    let (c1, os, progress) = drain_pass alive c c.ooo in
    let c2 = record c1 { ooo = os } in
    let rest = ooo_drain alive rounds c2 in if progress then rest else some c2

unfoldable pub is_held : ℕ → List (Option Held) → Bool
is_held s [] = false
is_held s (none ∷ os) = is_held s os
is_held s (some (t, bytes) ∷ os) = t == s || is_held s os

unfoldable pub put_held : Held → List (Option Held) → List (Option Held)
put_held h [] = []
put_held h (none ∷ os) = some h ∷ os
put_held h (some g ∷ os) = some g ∷ put_held h os

-- `room` is whether malloc has memory for the bytes.
unfoldable pub ooo_store : Bool → Conn → ℕ → List ℕ → Conn
ooo_store room c s bytes =
    if is_held s c.ooo
    then c
    else if room
    then record c { ooo = put_held (s, take ooo_seg bytes) c.ooo }
    else c

unfoldable pub rcv_data : (ℕ → Bool) → Bool → ℕ → Conn → ℕ → List ℕ → Option Conn
rcv_data alive room rounds c seq bytes =
    let skip = if seq_lt seq c.rcv_nxt then sub32 c.rcv_nxt seq else 0 in
    let s = if seq_lt seq c.rcv_nxt then c.rcv_nxt else seq in
    let (n, c1) = take_in alive c (drop skip bytes) in
    if seq_le (add32 seq (length bytes)) c.rcv_nxt
    then some c
    else if s == c.rcv_nxt
    then ooo_drain alive rounds c1
    else some (ooo_store room c s (drop skip bytes))
