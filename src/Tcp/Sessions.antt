-- ===== src/Tcp/Sessions.antt =====
-- src/net_ip.c: what can happen to two connections and the link between them, for the bytes that go
-- one way, and what every such step keeps.
use rvos.Common.{
  if_cases, ℕ, zero, suc, ◌+◌, ◌-◌, ◌^◌, ◌≤◌, ◌<◌, min, ◌≡◌, refl, ap, ◌∙◌, sym, subst, Bool, some,
  List, [], ◌∷◌, ◌++◌, length, get_elem?, length-append, ◌==◌, arith, All,
}
use rvos.Tcp.{Conn, SegmentOut, snd_max}
use rvos.Tcp.Receive.{rcv_data}
use rvos.Tcp.Streams.{slice, slice_add}
use rvos.Tcp.Rounds.{Receives}
use rvos.Tcp.Arrivals.{Arrives}
use rvos.Tcp.Delivery.{rcv_data-Receives}
use rvos.Tcp.Output.{Env, tcp_output, send_ack, tcp_write}
use rvos.Tcp.Acks.{ack_input, conn_timeout, conn_take}
use rvos.Tcp.Sender.{Sends, Carries, resent}
use rvos.Tcp.Kept.{ack_input-Kept}
use rvos.Tcp.Reading.{Receives-later, Kept-Receives, send_ack-Receives, conn_take-Receives}
use rvos.Tcp.Sending.{tcp_output-Sends, tcp_write-Sends, ack_input-Sends}
use rvos.Tcp.Timeouts.{conn_timeout-Sends}

-- The two ends, the place up to which the one has written, and the bytes that the other has read.
pub record Link : Type 0 where
  pub sender : Conn
  pub receiver : Conn
  pub written : ℕ
  pub read : List ℕ

All-at {ℓ κ} :
    {A : Type ℓ} (P : A → Type κ) (xs : List A) (i : ℕ) (x : A)
    → All P xs
    → get_elem? xs i ≡ some x
    → P x
All-at P [] i x all e = absurd (cc)
All-at P (y ∷ ys) zero x all e = let same : y ≡ x = cc in subst P same all.0
All-at P (y ∷ ys) (suc i) x all e = All-at P ys i x all.1 e

module _ (stream : ℕ → ℕ) (low : ℕ) where
  -- What can happen: a program writes the next bytes of the stream; an acknowledgement of any number
  -- arrives, with any window, which tcp_segment stores first; tcp_output is called again; a timeout
  -- passes; any segment that was sent arrives, in any order, again, or never; the receiver is told of any
  -- acknowledgement and window in the same way, and says where it is; a program reads. A session is shorter than 2 ^ 31 - 8192 bytes.
  pub data Step : Link → Link → Type 0 where
    writes :
        (l : Link) (env : Env) (bytes : List ℕ)
        → bytes ≡ slice stream l.written (length bytes)
        → l.written + length bytes + 8192 ≤ low + 2 ^ 31
        → Step l (record l {
          sender = (tcp_write env l.sender bytes).1;
          written = l.written + (tcp_write env l.sender bytes).0;
        })
    acknowledged :
        (l : Link) (env : Env) (ack window : ℕ)
        → ack < 2 ^ 32
        → Step l (record l { sender = ack_input env (record l.sender { snd_wnd = window }) ack })
    pushed : (l : Link) (env : Env) → Step l (record l { sender = tcp_output env l.sender })
    timed_out :
        (l : Link) (env : Env) (c : Conn)
        → conn_timeout env l.sender ≡ some c
        → Step l (record l { sender = c })
    arrived :
        (l : Link) (alive : ℕ → Bool) (room : Bool) (rounds i : ℕ) (seg : SegmentOut) (c : Conn)
        → get_elem? l.sender.wire i ≡ some seg
        → 0 < length seg.bytes
        → rcv_data alive room rounds l.receiver seg.seq seg.bytes ≡ some c
        → Step l (record l { receiver = c })
    heard :
        (l : Link) (env : Env) (ack window : ℕ)
        → Step l
            (record l { receiver = ack_input env (record l.receiver { snd_wnd = window }) ack })
    answers : (l : Link) (env : Env) → Step l (record l { receiver = send_ack env l.receiver })
    reads :
        (l : Link) (env : Env) (want : ℕ)
        → Step l (record l {
          receiver = (conn_take env l.receiver want).1;
          read = l.read ++ (conn_take env l.receiver want).0;
        })

  pub data Reach (l : Link) : Link → Type 0 where
    here : Reach l l
    next : {m n : Link} → Reach l m → Step m n → Reach l n

  pub record Agree (l : Link) : Type 0 where
    pub sends : (base : ℕ) × Sends stream low base l.written l.sender
    pub receives : Receives stream l.written (low + length l.read) l.receiver
    pub reading : l.read ≡ slice stream low (length l.read)
    pub short : l.written + 8192 ≤ low + 2 ^ 31

  length-tcp_write :
      (env : Env) (c : Conn) (bytes : List ℕ) → (tcp_write env c bytes).0 ≤ length bytes
  unfolding tcp_write
  length-tcp_write env c bytes =
      if_cases (λ (t : ℕ × Conn). t.0 ≤ length bytes)
        (min (length bytes) (snd_max - length c.snd_buf) == 0) _ _ (λ e. omega arith)
        (λ e. omega arith)

  Step-Agree : {l m : Link} → Step l m → Agree l → Agree m
  Step-Agree (writes l env bytes own room) a =
      let r = tcp_write env l.sender bytes in
      let sent = tcp_write-Sends stream low env a.sends.0 l.written l.sender bytes a.sends.1 own in
      let few : r.0 ≤ length bytes = length-tcp_write env l.sender bytes in
      record {
        sends = (a.sends.0, sent);
        receives =
            Receives-later stream l.written (l.written + r.0) (low + length l.read) l.receiver
              (omega arith) (omega (arith, few)) a.receives;
        reading = a.reading;
        short = omega (arith, few);
      }
  Step-Agree (acknowledged l env ack window word) a =
      let base = a.sends.0 in
      let c : Conn = record l.sender { snd_wnd = window } in
      let told =
        resent stream low base l.written l.sender c a.sends.1 refl refl refl (a.sends.1).next
          (a.sends.1).una in
      let s = ack_input-Sends stream low env base l.written c ack word told in
      record { sends = (s.0, s.2); receives = a.receives; reading = a.reading; short = a.short }
  Step-Agree (pushed l env) a = record {
    sends = (a.sends.0, tcp_output-Sends stream low env a.sends.0 l.written l.sender a.sends.1);
    receives = a.receives;
    reading = a.reading;
    short = a.short;
  }
  Step-Agree (heard l env ack window) a = record {
    sends = a.sends;
    receives =
        Kept-Receives stream l.written (low + length l.read) l.receiver
          (ack_input env (record l.receiver { snd_wnd = window }) ack)
          (ack_input-Kept _ env (record l.receiver { snd_wnd = window }) ack refl) a.receives;
    reading = a.reading;
    short = a.short;
  }
  Step-Agree (answers l env) a = record {
    sends = a.sends;
    receives = send_ack-Receives stream env l.written (low + length l.read) l.receiver a.receives;
    reading = a.reading;
    short = a.short;
  }
  Step-Agree (timed_out l env c e) a = record {
    sends =
        (a.sends.0, conn_timeout-Sends stream low env a.sends.0 l.written l.sender c a.sends.1 e);
    receives = a.receives;
    reading = a.reading;
    short = a.short;
  }
  Step-Agree (arrived l alive room rounds i seg c at some_bytes e) a =
      let g =
        All-at (Carries stream low l.written) l.sender.wire i seg (a.sends.1).sent at some_bytes in
      let q = a.receives.queued in
      let here : Arrives stream l.written (low + length l.read) l.receiver g.0 seg.seq seg.bytes =
        record {
          number = g.1;
          carried = g.2;
          recent = omega (arith, q.below, g.3, a.short);
          within = g.4;
        } in
      record {
        sends = a.sends;
        receives =
            (rcv_data-Receives stream l.written alive room rounds (low + length l.read) l.receiver c
              g.0 seg.seq seg.bytes a.receives here e).0;
        reading = a.reading;
        short = a.short;
      }
  Step-Agree (reads l env want) a =
      let r = conn_take env l.receiver want in
      let t =
        conn_take-Receives stream env l.written (low + length l.read) l.receiver want a.receives in
      let size = length-append l.read r.0 in
      record {
        sends = a.sends;
        receives = subst (λ b. Receives stream l.written b r.1) (omega (arith, size)) t.1;
        reading =
            ap (λ x. x ++ r.0) a.reading
            ∙ ap (λ x. slice stream low (length l.read) ++ x) t.0
            ∙ slice_add stream low (length l.read) (length r.0)
            ∙ ap (slice stream low) (sym size);
        short = a.short;
      }

  pub Reach-Agree : {l m : Link} → Agree l → Reach l m → Agree m
  Reach-Agree a here = a
  Reach-Agree a (next r st) = Step-Agree st (Reach-Agree a r)
