-- ===== src/Tcp/Table.antt =====
-- src/net_ip.c: the table of connections, which of them a segment belongs to, tcp_segment, and the alarm.
use rvos.Common.{
  ℕ, zero, suc, ◌+◌, ◌-◌, Bool, true, false, ◌&&◌, ◌||◌, not, Option, none, some, List, [], ◌∷◌,
  length, ltb, ◌==◌, ◌!=◌, if◌then◌else◌,
}
use rvos.Tcp.{ConnState, Conn}
use rvos.Tcp.Output.{Env, syn, rst, has}
use rvos.Tcp.Acks.{conn_timeout}
use rvos.Tcp.Input.{
  Incoming, Outcome, stays, gone, refused, endless, tcp_reset, tcp_accept, conn_segment,
}
use rvos.Net.Frames.{ip_eq}

-- `tcbs`: an empty slot is `none`.
abbrev pub Table : Type 0
Table = List (Option Conn)

abbrev pub ntcb : ℕ
ntcb = 128

abbrev pub is_listening : ConnState → Bool
is_listening ConnState.listen = true
is_listening _ = false

-- The connection on the local port with this peer.
abbrev pub is_exact : List ℕ → ℕ → ℕ → Conn → Bool
is_exact raddr rport lport c =
    (c.lport == lport) && not (is_listening c.state) && (c.rport == rport) && ip_eq c.raddr raddr

abbrev pub is_listener : ℕ → Conn → Bool
is_listener lport c = (c.lport == lport) && is_listening c.state

-- The slot of the connection, or of the last listener on the port. No slot in use is free: tcb_free
-- empties it.
unfoldable pub find_from : ℕ → Option ℕ → List ℕ → ℕ → ℕ → Table → Option ℕ
find_from i listener raddr rport lport [] = listener
find_from i listener raddr rport lport (none ∷ tcbs) =
    find_from (i + 1) listener raddr rport lport tcbs
find_from i listener raddr rport lport (some c ∷ tcbs) =
    let rest =
      find_from (i + 1) (if is_listener lport c then some i else listener) raddr rport lport tcbs in
    if is_exact raddr rport lport c then some i else rest

unfoldable pub tcb_find : List ℕ → ℕ → ℕ → Table → Option ℕ
tcb_find raddr rport lport tcbs = find_from 0 none raddr rport lport tcbs

unfoldable pub tcb_at : Table → ℕ → Option Conn
tcb_at [] i = none
tcb_at (o ∷ tcbs) zero = o
tcb_at (o ∷ tcbs) (suc i) = tcb_at tcbs i

unfoldable pub set_tcb : Table → ℕ → Option Conn → Table
set_tcb [] i v = []
set_tcb (o ∷ tcbs) zero v = v ∷ tcbs
set_tcb (o ∷ tcbs) (suc i) v = o ∷ set_tcb tcbs i v

-- The first empty slot takes the block, where there is memory for it.
unfoldable pub tcb_alloc : Bool → Table → Conn → Table
tcb_alloc room [] c = []
tcb_alloc room (none ∷ tcbs) c = (if room then some c else none) ∷ tcbs
tcb_alloc room (some d ∷ tcbs) c = some d ∷ tcb_alloc room tcbs c

-- What a segment makes of the table, and the reset that goes out: `none` where ooo_drain does not end.
abbrev pub Reply : Type 0
Reply = Option (Table × Option (ℕ × ℕ × ℕ))

abbrev pub replied : Table → ℕ → Incoming → Outcome → Reply
replied tcbs i seg (stays c) = some (set_tcb tcbs i (some c), none)
replied tcbs i seg gone = some (set_tcb tcbs i none, none)
replied tcbs i seg (refused c) =
    some (set_tcb tcbs i (some c), some (tcp_reset seg.flags seg.seq seg.ack (length seg.bytes)))
replied tcbs i seg endless = none

-- The segment for a listener: a SYN makes a connection of its own.
unfoldable pub listen_segment : Env → Bool → ℕ → List ℕ → ℕ → ℕ → Table → Incoming → Reply
listen_segment env room iss sip sport dport tcbs seg =
    if has seg.flags rst
    then some (tcbs, none)
    else if not (has seg.flags syn)
    then some (tcbs, some (tcp_reset seg.flags seg.seq seg.ack (length seg.bytes)))
    else some (tcb_alloc room tcbs (tcp_accept env iss sip dport sport seg), none)

-- tcp_segment behind its header and checksum.
unfoldable pub tcp_segment :
    Env → (ℕ → Bool) → Bool → ℕ → ℕ → List ℕ → ℕ → ℕ → Table → Incoming → Reply
tcp_segment env alive room rounds iss sip sport dport tcbs seg =
    let found = tcb_find sip sport dport tcbs in
    let refusal : Reply = some (
      tcbs,
      if has seg.flags rst
          then none
          else some (tcp_reset seg.flags seg.seq seg.ack (length seg.bytes)),
    ) in
    elim found [
      | none ↦ refusal
      | some i ↦ elim (tcb_at tcbs i) [
        | none ↦ refusal
        | some c ↦
            if is_listening c.state
            then listen_segment env room iss sip sport dport tcbs seg
            else replied tcbs i seg (conn_segment env alive room rounds c seg)
      ]
    ]

-- The sweep of net_timeout over the connections.
unfoldable pub timeouts : Env → Table → Table
timeouts env [] = []
timeouts env (none ∷ tcbs) = none ∷ timeouts env tcbs
timeouts env (some c ∷ tcbs) = conn_timeout env c ∷ timeouts env tcbs

-- The earlier of two deadlines: 0 is none.
abbrev pub sooner : ℕ → ℕ → ℕ
sooner best at = if (at != 0) && ((best == 0) || ltb at best) then at else best

unfoldable pub earliest : ℕ → Table → ℕ
earliest best [] = best
earliest best (none ∷ tcbs) = earliest best tcbs
earliest best (some c ∷ tcbs) = earliest (sooner (sooner best c.rt_at) c.tw_at) tcbs

-- timers_rearm: the argument of sys_alarm. `best` is the earlier of the deadlines of the resolver and
-- of a reply that was refused.
unfoldable pub timers_rearm : ℕ → ℕ → Table → ℕ
timers_rearm now best tcbs =
    let at = earliest best tcbs in if at == 0 then 0 else if ltb now at then at - now else 1
