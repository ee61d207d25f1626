-- ===== src/Tcp/Arrows.antt =====
-- src/net_ip.c: the transitions of a connection, as RFC 793 draws them.
use rvos.Common.{
  if_cases, ℕ, ◌≡◌, refl, sym, subst, Bool, true, false, ◌&&◌, ◌||◌, not, Option, none, some,
  length, ◌==◌, ◌!=◌, if◌then◌else◌, arith,
}
use rvos.Tcp.{ConnState, Conn, add32, seq_le, seq_gt}
use rvos.Tcp.Receive.{rcv_data}
use rvos.Tcp.Output.{Env, fin, syn, rst, acks, has, send_ack}
use rvos.Tcp.Acks.{all_acked, ack_input}
use rvos.Tcp.States.{In, Leaves, tcp_output-In, send_ack-In, ack_input-In, rcv_data-In}
use rvos.Tcp.Input.{
  Incoming, Outcome, stays, gone, refused, endless, ref_count, tcp_close, close_in, enter_time_wait,
  opening_segment, closed_half, fin_in, fin_segment, data_segment, open_in, open_segment,
  is_opening, conn_segment,
}

-- One arrow of the diagram that a segment can take.
pub data Arrow : ConnState → ConnState → Type 0 where
  answered : Arrow ConnState.syn_sent ConnState.established
  crossed : Arrow ConnState.syn_sent ConnState.syn_rcvd
  completed : Arrow ConnState.syn_rcvd ConnState.established
  peer_closed : Arrow ConnState.established ConnState.close_wait
  left : Arrow ConnState.close_wait ConnState.last_ack
  fin_acked : Arrow ConnState.fin_wait_1 ConnState.fin_wait_2
  both_closed : Arrow ConnState.fin_wait_1 ConnState.closing
  peer_done : Arrow ConnState.fin_wait_2 ConnState.time_wait
  last_acked : Arrow ConnState.closing ConnState.time_wait

-- Arrows one after another: a segment can carry an acknowledgement and a FIN.
pub data Arrows (s : ConnState) : ConnState → Type 0 where
  here : Arrows s s
  then_by : {t u : ConnState} → Arrows s t → Arrow t u → Arrows s u

-- What may become of a connection in a state, without a reset.
abbrev pub Follows : ConnState → Outcome → Type 0
Follows s (stays c) = Arrows s c.state
Follows s gone = Arrows s ConnState.last_ack
Follows s (refused c) = c.state ≡ s
Follows s endless = Unit {0}

reaches : {s t u : ConnState} → Arrows s t → u ≡ t → Arrows s u
reaches {s} a h = subst (Arrows s) (sym h) a

closed_half-Follows :
    (s : ConnState) (env : Env) (c : Conn)
    → Arrows s ConnState.close_wait
    → In ConnState.close_wait c
    → Follows s (closed_half env c)
unfolding tcp_close
closed_half-Follows s env c a h =
    let P = λ (o : Option Conn). Follows s (elim o [ none ↦ gone | some c1 ↦ stays c1 ]) in
    if_cases P (ref_count c.refs == 0) _ _
      (λ e.
        subst (λ t. P (close_in t env c)) (sym h)
          (reaches (then_by a left) (tcp_output-In ConnState.last_ack env _ refl)))
      (λ e. reaches a h)

fin_in-Follows :
    (s t : ConnState) (env : Env) (c : Conn) → Arrows s t → In t c → Follows s (fin_in t env c)
fin_in-Follows s ConnState.established env c a h =
    closed_half-Follows s env _ (then_by a peer_closed)
      (send_ack-In ConnState.close_wait env _ refl)
fin_in-Follows s ConnState.fin_wait_1 env c a h =
    let c1 = send_ack env c in
    if_cases (λ (k : Conn). Arrows s k.state) (c1.fin_sent && all_acked c1) _ _
      (λ e. unfold enter_time_wait in then_by (then_by a both_closed) last_acked)
      (λ e. then_by a both_closed)
fin_in-Follows s ConnState.fin_wait_2 env c a h = unfold enter_time_wait in then_by a peer_done
fin_in-Follows s ConnState.closed env c a h = reaches a h
fin_in-Follows s ConnState.listen env c a h = reaches a h
fin_in-Follows s ConnState.syn_sent env c a h = reaches a h
fin_in-Follows s ConnState.syn_rcvd env c a h = reaches a h
fin_in-Follows s ConnState.closing env c a h = reaches a h
fin_in-Follows s ConnState.time_wait env c a h = reaches a h
fin_in-Follows s ConnState.close_wait env c a h = reaches a h
fin_in-Follows s ConnState.last_ack env c a h = reaches a h

fin_segment-Follows :
    (s t : ConnState) (env : Env) (c : Conn) (seg : Incoming)
    → Arrows s t
    → In t c
    → Follows s (fin_segment env c seg)
unfolding fin_segment
fin_segment-Follows s t env c seg a h =
    let c1 : Conn = record c { rcv_nxt = add32 c.rcv_nxt 1 } in
    if_cases (Follows s) (has seg.flags fin && (add32 seg.seq (length seg.bytes) == c.rcv_nxt)) _ _
      (λ e. subst (λ u. Follows s (fin_in u env c1)) (sym h) (fin_in-Follows s t env c1 a h))
      (λ e. reaches a h)

taken-Follows :
    (s t : ConnState) (env : Env) (c : Conn) (seg : Incoming) (o : Option Conn)
    → Arrows s t
    → Leaves t o
    → let taken : Outcome = elim o [
      | none ↦ endless
      | some c1 ↦
          let c2 = send_ack env c1 in
          if (c.rcv_nxt == c2.rcv_nxt) && (seg.seq != c.rcv_nxt)
          then stays c2
          else fin_segment env c2 seg
    ] in
      Follows s taken
taken-Follows s t env c seg none a h = tt
taken-Follows s t env c seg (some c1) a h =
    let c2 = send_ack env c1 in
    let h2 = send_ack-In t env c1 h in
    if_cases (Follows s) ((c.rcv_nxt == c2.rcv_nxt) && (seg.seq != c.rcv_nxt)) _ _
      (λ e. reaches a h2) (λ e. fin_segment-Follows s t env c2 seg a h2)

data_segment-Follows :
    (s t : ConnState) (env : Env) (alive : ℕ → Bool) (room : Bool) (rounds : ℕ) (c : Conn)
    (seg : Incoming)
    → Arrows s t
    → In t c
    → Follows s (data_segment env alive room rounds c seg)
unfolding data_segment
data_segment-Follows s t env alive room rounds c seg a h =
    if_cases (Follows s) (length seg.bytes == 0) _ _ (λ e. fin_segment-Follows s t env c seg a h)
      (λ e.
        taken-Follows s t env c seg (rcv_data alive room rounds c seg.seq seg.bytes) a
          (rcv_data-In t alive room rounds c seg.seq seg.bytes h))

open_in-Follows :
    (s : ConnState) (env : Env) (c : Conn) (seg : Incoming) (go : Conn → Outcome)
    → In s c
    → ((t : ConnState) (k : Conn) → Arrows s t → In t k → Follows s (go k))
    → Follows s (open_in s env c seg go)
open_in-Follows ConnState.syn_rcvd env c seg go h next =
    if_cases (Follows ConnState.syn_rcvd) (has seg.flags acks) _ _
      (λ e. next ConnState.established _ (then_by here completed) refl) (λ e. reaches here h)
open_in-Follows ConnState.fin_wait_1 env c seg go h next =
    if_cases (λ (k : Conn). Follows ConnState.fin_wait_1 (go k)) (c.fin_sent && all_acked c) _ _
      (λ e. next ConnState.fin_wait_2 _ (then_by here fin_acked) refl)
      (λ e. next ConnState.fin_wait_1 c here h)
open_in-Follows ConnState.closing env c seg go h next =
    if_cases (Follows ConnState.closing) (c.fin_sent && all_acked c) _ _
      (λ e. unfold enter_time_wait in then_by here last_acked)
      (λ e. next ConnState.closing c here h)
open_in-Follows ConnState.last_ack env c seg go h next =
    if_cases (Follows ConnState.last_ack) (c.fin_sent && all_acked c) _ _ (λ e. here)
      (λ e. next ConnState.last_ack c here h)
open_in-Follows ConnState.time_wait env c seg go h next =
    if_cases (λ (k : Conn). Arrows ConnState.time_wait k.state) (has seg.flags fin) _ _
      (λ e. reaches here (send_ack-In ConnState.time_wait env c h)) (λ e. reaches here h)
open_in-Follows ConnState.closed env c seg go h next = next ConnState.closed c here h
open_in-Follows ConnState.listen env c seg go h next = next ConnState.listen c here h
open_in-Follows ConnState.syn_sent env c seg go h next = next ConnState.syn_sent c here h
open_in-Follows ConnState.established env c seg go h next = next ConnState.established c here h
open_in-Follows ConnState.fin_wait_2 env c seg go h next = next ConnState.fin_wait_2 c here h
open_in-Follows ConnState.close_wait env c seg go h next = next ConnState.close_wait c here h

opening_segment-Follows :
    (env : Env) (c : Conn) (seg : Incoming)
    → In ConnState.syn_sent c
    → Follows ConnState.syn_sent (opening_segment env c seg)
unfolding opening_segment
opening_segment-Follows env c seg h =
    let P = Follows ConnState.syn_sent in
    if_cases P (not (has seg.flags syn)) _ _ (λ e. reaches here h)
      (λ e.
        if_cases P (has seg.flags acks) _ _
          (λ f.
            if_cases P (seq_le seg.ack c.iss || seq_gt seg.ack c.snd_nxt) _ _ (λ g. h)
              (λ g. reaches (then_by here answered) (send_ack-In ConnState.established env _ refl)))
          (λ f. reaches (then_by here crossed) (tcp_output-In ConnState.syn_rcvd env _ refl)))

is_opening-at : (s : ConnState) → is_opening s ≡ true → s ≡ ConnState.syn_sent
is_opening-at s h = ground arith

-- A segment without a reset takes a connection along arrows of the diagram of RFC 793, at most, and
-- frees it only where they lead to LAST-ACK.
pub conn_segment-Follows :
    (env : Env) (alive : ℕ → Bool) (room : Bool) (rounds : ℕ) (c : Conn) (seg : Incoming)
    → has seg.flags rst ≡ false
    → Follows c.state (conn_segment env alive room rounds c seg)
unfolding conn_segment open_segment
conn_segment-Follows env alive room rounds c seg no_reset =
    let P = Follows c.state in
    let c1 : Conn =
      if has seg.flags acks then ack_input env (record c { snd_wnd = seg.wnd }) seg.ack else c in
    let go : Conn → Outcome = λ k. data_segment env alive room rounds k seg in
    let kept : In c.state c1 =
      if_cases (In c.state) (has seg.flags acks) _ _
        (λ e. ack_input-In c.state env (record c { snd_wnd = seg.wnd }) seg.ack refl) (λ e. refl) in
    if_cases P (has seg.flags rst) _ _ (λ e. absurd (cc))
      (λ e.
        if_cases P (is_opening c.state) _ _
          (λ f.
            let h = is_opening-at c.state f in
            subst (λ s. Follows s (opening_segment env c seg)) (sym h)
              (opening_segment-Follows env c seg h))
          (λ f.
            subst (λ t. P (open_in t env c1 seg go)) (sym kept)
              (open_in-Follows c.state env c1 seg go kept
                (λ t k a h. data_segment-Follows c.state t env alive room rounds k seg a h))))
