-- ===== src/Tcp/Timeouts.antt =====
-- src/net_ip.c: the sender of a connection at a timeout.
use rvos.Common.{if_cases, ℕ, ◌+◌, ◌≡◌, refl, subst, ◌&&◌, ◌||◌, not, Option, some, ltb, leb, ◌==◌}
use rvos.Tcp.{Conn}
use rvos.Tcp.Output.{Env, syn, has, rto_tries}
use rvos.Tcp.Acks.{retry_pending, retransmit, conn_timeout, forced}
use rvos.Tcp.Sender.{Sends, resent}
use rvos.Tcp.Sending.{tcp_output-Sends, send_ack-Sends}

module _ (stream : ℕ → ℕ) (low : ℕ) where
  forced-Sends :
      (env : Env) (base top : ℕ) (c : Conn)
      → Sends stream low base top c
      → Sends stream low base top (forced env c)
  forced-Sends env base top c s =
      if_cases (Sends stream low base top) (c.rt_at == 0) _ _
        (λ e. resent stream low base top c _ s refl refl refl s.next s.una) (λ e. s)

  retry_pending-Sends :
      (env : Env) (base top : ℕ) (c : Conn)
      → Sends stream low base top c
      → Sends stream low base top (retry_pending env c)
  unfolding retry_pending
  retry_pending-Sends env base top c s =
      let c1 : Conn = record c { rt_pending = 0; rt_at = 0 } in
      let s1 : Sends stream low base top c1 =
        resent stream low base top c c1 s refl refl refl s.next s.una in
      forced-Sends env base top _ (
        if_cases (Sends stream low base top) (has c.rt_pending syn) _ _
          (λ e. tcp_output-Sends stream low env base top c1 s1)
          (λ e. send_ack-Sends stream low env base top c1 s1))

  retransmit-Sends :
      (env : Env) (base top : ℕ) (c : Conn)
      → Sends stream low base top c
      → Sends stream low base top (retransmit env c)
  unfolding retransmit
  retransmit-Sends env base top c s =
      let s1 =
        tcp_output-Sends stream low env base top _
          (resent stream low base top c _ s refl refl refl s.una s.una) in
      forced-Sends env base top _ (resent stream low base top _ _ s1 refl refl refl s1.next s1.una)

  -- A timeout that does not end the connection leaves the sender right.
  pub conn_timeout-Sends :
      (env : Env) (base top : ℕ) (c c1 : Conn)
      → Sends stream low base top c
      → conn_timeout env c ≡ some c1
      → Sends stream low base top c1
  unfolding conn_timeout
  conn_timeout-Sends env base top c c1 s =
      let P = λ (o : Option Conn). o ≡ some c1 → Sends stream low base top c1 in
      let tried : Conn = record c { rt_tries = c.rt_tries + 1 } in
      let s1 : Sends stream low base top tried =
        resent stream low base top c tried s refl refl refl s.next s.una in
      let known = λ (k : Conn) (sk : Sends stream low base top k) (e : some k ≡ some c1).
        (let same : k ≡ c1 = cc in subst (Sends stream low base top) same sk) in
      if_cases P (not (c.tw_at == 0) && leb c.tw_at env.now) _ _ (λ e f. absurd (cc))
        (λ e.
          if_cases P ((c.rt_at == 0) || ltb env.now c.rt_at) _ _ (λ g. known c s)
            (λ g.
              if_cases P (ltb rto_tries tried.rt_tries) _ _ (λ h f. absurd (cc))
                (λ h. known _ (
                  if_cases (Sends stream low base top) (not (c.rt_pending == 0)) _ _
                    (λ i. retry_pending-Sends env base top tried s1)
                    (λ i. retransmit-Sends env base top tried s1)))))
