-- ===== src/Tcp/States.antt =====
-- src/net_ip.c: the states that a connection goes through.
use rvos.Common.{
  if_cases, ℕ, zero, suc, ◌-◌, ◌≡◌, refl, ap, ◌∙◌, Bool, Option, none, some, List, [], ◌∷◌, length,
  drop, min, ltb, ◌==◌, if◌then◌else◌,
}
use rvos.Tcp.{ConnState, Conn, Held, rx_queue, add32, sub32, seq_lt, seq_le, seq_gt}
use rvos.Tcp.Receive.{
  interrupt, find_intr, rcv_accept, take_in, drain_slot, drain_pass, ooo_drain, ooo_store, rcv_data,
  is_held,
}
use rvos.Tcp.Output.{Env, tcp_output, send_ack}
use rvos.Tcp.Acks.{ack_input}
use rvos.Tcp.Kept.{RcvSide, tcp_output-Kept, send_ack-Kept, ack_input-Kept}

-- The connection has this state.
abbrev pub In : ConnState → Conn → Type 0
In s c = c.state ≡ s

pub tcp_output-In : (s : ConnState) (env : Env) (c : Conn) → In s c → In s (tcp_output env c)
tcp_output-In s env c h = ap (λ (r : RcvSide). r.0) (tcp_output-Kept _ env c refl) ∙ h

pub send_ack-In : (s : ConnState) (env : Env) (c : Conn) → In s c → In s (send_ack env c)
send_ack-In s env c h = ap (λ (r : RcvSide). r.0) (send_ack-Kept _ env c refl) ∙ h

pub ack_input-In :
    (s : ConnState) (env : Env) (c : Conn) (ack : ℕ) → In s c → In s (ack_input env c ack)
ack_input-In s env c ack h = ap (λ (r : RcvSide). r.0) (ack_input-Kept _ env c ack refl) ∙ h

interrupt-In :
    (s : ConnState) (alive : ℕ → Bool) (cut : Option ℕ) (c : Conn)
    → In s c
    → In s (interrupt alive cut c)
interrupt-In s alive none c h = h
interrupt-In s alive (some i) c h = h

take_in-In :
    (s : ConnState) (alive : ℕ → Bool) (c : Conn) (bytes : List ℕ)
    → In s c
    → In s (take_in alive c bytes).1
unfolding take_in rcv_accept
take_in-In s alive c bytes h =
    let cut = if ltb 0 c.intr_task then find_intr bytes else none in
    let hit = interrupt-In s alive cut c h in
    if_cases (λ (t : ℕ × Conn). In s t.1) (min (length bytes) (rx_queue - length c.rxq) == 0) _ _
      (λ e. hit) (λ e. hit)

drain_slot-In :
    (s : ConnState) (alive : ℕ → Bool) (c : Conn) (o : Option Held)
    → In s c
    → In s (drain_slot alive c o).0
unfolding drain_slot
drain_slot-In s alive c none h = h
drain_slot-In s alive c (some (seq, bytes)) h =
    let P = λ (t : Conn × Option Held × Bool). In s t.0 in
    if_cases P (seq_gt seq c.rcv_nxt) _ _ (λ e. h)
      (λ e.
        if_cases P (seq_le (add32 seq (length bytes)) c.rcv_nxt) _ _ (λ f. h)
          (λ f. take_in-In s alive c (drop (sub32 c.rcv_nxt seq) bytes) h))

drain_pass-In :
    (s : ConnState) (alive : ℕ → Bool) (c : Conn) (os : List (Option Held))
    → In s c
    → In s (drain_pass alive c os).0
unfolding drain_pass
drain_pass-In s alive c [] h = h
drain_pass-In s alive c (o ∷ os) h =
    drain_pass-In s alive (drain_slot alive c o).0 os (drain_slot-In s alive c o h)

-- The connection that a fallible step leaves, where it leaves one.
abbrev pub Leaves : ConnState → Option Conn → Type 0
Leaves s none = Unit {0}
Leaves s (some c) = In s c

ooo_drain-In :
    (s : ConnState) (alive : ℕ → Bool) (rounds : ℕ) (c : Conn)
    → In s c
    → Leaves s (ooo_drain alive rounds c)
unfolding ooo_drain
ooo_drain-In s alive zero c h = tt
ooo_drain-In s alive (suc rounds) c h =
    let r = drain_pass alive c c.ooo in
    let left = drain_pass-In s alive c c.ooo h in
    if_cases (Leaves s) r.2 _ _ (λ e. ooo_drain-In s alive rounds (record (r.0) { ooo = r.1 }) left)
      (λ e. left)

ooo_store-In :
    (s : ConnState) (room : Bool) (c : Conn) (seq : ℕ) (bytes : List ℕ)
    → In s c
    → In s (ooo_store room c seq bytes)
unfolding ooo_store
ooo_store-In s room c seq bytes h =
    if_cases (In s) (is_held seq c.ooo) _ _ (λ e. h)
      (λ e. if_cases (In s) room _ _ (λ f. h) (λ f. h))

pub rcv_data-In :
    (s : ConnState) (alive : ℕ → Bool) (room : Bool) (rounds : ℕ) (c : Conn) (seq : ℕ)
    (bytes : List ℕ)
    → In s c
    → Leaves s (rcv_data alive room rounds c seq bytes)
unfolding rcv_data
rcv_data-In s alive room rounds c seq bytes h =
    let skip = if seq_lt seq c.rcv_nxt then sub32 c.rcv_nxt seq else 0 in
    let at = if seq_lt seq c.rcv_nxt then c.rcv_nxt else seq in
    if_cases (Leaves s) (seq_le (add32 seq (length bytes)) c.rcv_nxt) _ _ (λ e. h)
      (λ e.
        if_cases (Leaves s) (at == c.rcv_nxt) _ _
          (λ f. ooo_drain-In s alive rounds _ (take_in-In s alive c (drop skip bytes) h))
          (λ f. ooo_store-In s room c at (drop skip bytes) h))
