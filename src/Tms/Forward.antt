-- ===== src/Tms/Forward.antt =====
-- What `StreamRecvEvent` of tms/tms/ConnectMgr.cpp does to the server's state with bytes that have been
-- read: the charge behind a complete message, and the forwarding in both directions. Only the number
-- of the bytes is kept: Tms/Download has the bytes of a download.
pub mod Upload
use https_tunnel_proxy.Base.{ℕ, ◌+◌, ◌-◌, ◌%◌, ◌^◌, ap, not, ◌&&◌, none, some, ◌==◌, if◌then◌else◌}
use https_tunnel_proxy.Base.Int.{add64}
use https_tunnel_proxy.Wire.Bytes.{header_size}
use https_tunnel_proxy.Tms.Accounting.{Status, ok, failed, traffic_est}
use https_tunnel_proxy.Tms.World.{
  Connect, System, epoll_del, Message, t_tunnel, t_agent, sta_hangup, epollin,
}
use https_tunnel_proxy.Tms.World.Action.{
  Action, pure, pointer, ◌>>=◌, ◌>>◌, call, conn_at, scb_at, edit_conn,
}
use https_tunnel_proxy.Tms.Connection.{send, record_traffic_at, is_paid}

-- How a round of the loop ends: the loop goes on, or the function returns 0, -1 or -2.
pub data Round : Type 0 where
  again closed_down broken later : Round

abbrev pub round_of : Status → Round
round_of ok = again
round_of failed = broken

-- The traffic of a connection whose client is not verified.
unfoldable pub count_before_login : System → ℕ → ℕ → Action (Unit {0})
count_before_login sys p n = edit_conn p (λ c. record c {
  traffic_tmp = add64 c.traffic_tmp (traffic_est sys.accurate (n + header_size));
})

-- The charge for the `n` bytes read last of a complete message, behind its handler.
unfoldable pub charge_message : System → ℕ → ℕ → Action Round
charge_message sys p n = do
  c ← conn_at p
  elim c.user [
    | none ↦ if c.type == t_tunnel then (count_before_login sys p n >> pure again) else pure again
    | some up ↦
        if not (c.sdk_verified == 0)
        then (record_traffic_at up c.scb (traffic_est sys.accurate (n + header_size)) >>= λ r.
            pure (round_of r))
        else if c.type == t_tunnel
        then (count_before_login sys p n >> pure again)
        else pure again
  ]

-- The bytes of a tunnel, to the agent at `ap`.
unfoldable pub upload : System → ℕ → Connect → ℕ → ℕ → Action Round
upload sys p c ap n = do
  up ← pointer c.user
  r ← record_traffic_at up c.scb (traffic_est sys.accurate n)
  if is_paid r
      then (do a ← conn_at ap; send sys a.sock_fd (Message.forwarded p 0 n) n; pure again)
      else pure broken

-- What the tunnel has not taken stays in the agent's buffer.
unfoldable pub keep_rest : ℕ → Connect → ℕ → ℕ → Action Round
keep_rest p c n w = if (w == n) && not (n == 0) then pure again else (do
  edit_conn p
      (λ c. record c { datalen = (n - w) % 2 ^ 16; offset = w % 2 ^ 16; status = sta_hangup })
  call (epoll_del c.sock_fd epollin)
  pure later)

-- The bytes of an agent, to the tunnel at `t`.
unfoldable pub download : System → ℕ → Connect → ℕ → ℕ → Action Round
download sys p c t n = do
  tc ← conn_at t
  wrote ← send sys tc.sock_fd (Message.forwarded p 0 n) n
  elim wrote [
    | none ↦ keep_rest p c n 0
    | some w ↦ do
      up ← pointer c.user
      r ← record_traffic_at up c.scb (traffic_est sys.accurate w)
      if is_paid r then keep_rest p c n w else pure broken
  ]

-- The forwarding case, for `n` bytes read on the connection at `p`.
unfoldable pub forward_read : System → ℕ → ℕ → Action Round
forward_read sys p n = do
  c ← conn_at p
  elim c.scb [
    | none ↦ pure closed_down
    | some sp ↦ do
      s ← scb_at sp
      elim s.tunnel_conn [
        | none ↦ pure closed_down
        | some t ↦ elim s.agent_conn [
          | none ↦ pure closed_down
          | some ap ↦
              if c.type == t_agent
              then download sys p c t n
              else if c.type == t_tunnel
              then upload sys p c ap n
              else pure again
        ]
      ]
  ]
