-- ===== src/Tms/Events.antt =====
-- What the proxy server does on the events of its sockets: `HandleAcceptEvent`,
-- `HandleEPOEvent` and `InformShutdownUser`, of
-- tms/tms/ConnectMgr.cpp.
pub mod Shutdown
pub mod Accept
pub mod Again
use https_tunnel_proxy.Base.{
  ℕ, ◌+◌, ◌-◌, ◌%◌, ◌^◌, ap, not, Option, none, some, ltb, leb, ◌==◌, if◌then◌else◌,
}
use https_tunnel_proxy.Wire.RespCode
use https_tunnel_proxy.Wire.Bytes.{header_size}
use https_tunnel_proxy.Tms.Accounting.{traffic_est, Status, ok, failed}
use https_tunnel_proxy.Tms.World.{
  Connect, System, epoll_mod, Message, new_connect, set, s_forward, t_tunnel, t_agent, sta_online,
  sta_inprogress, epollin, epollet, reset_connect,
}
use https_tunnel_proxy.Tms.World.Action.{
  Action, pure, gets, pointer, ◌>>=◌, ◌>>◌, skip, modify, call, conn_at, user_at, scb_at, put_conn,
  edit_conn, edit_scb,
}
use https_tunnel_proxy.Tms.Connection.{
  send, record_traffic_at, send_tms_msg, new_forward_id, add_event, gettimeofday, new_conn,
}
use https_tunnel_proxy.Tms.Removal.{erase_conn, report_or_accumulate_at, delete_peer}
use https_tunnel_proxy.Tms.Session.{login_answer}

-- The object for a new descriptor: one that is still entered for it is used again.
unfoldable pub fresh_conn : ℕ → Action ℕ
fresh_conn fd = do
  found ← gets (λ w. w.conn_map fd)
  elim found [ some p ↦ (edit_conn p reset_connect >> pure p) | none ↦ new_conn fd new_connect ]

-- `HandleAcceptEvent`
unfoldable pub handle_accept_event : System → Action (Option ℕ)
handle_accept_event sys = do
  calls ← gets (λ w. w.calls)
  elim (sys.accept calls) [
    | none ↦ pure none
    | some fd ↦ do
      p ← fresh_conn fd
      edit_conn p (λ c. record c { sock_fd = fd })
      modify (λ w. record w { conn_map = set w.conn_map fd p })
      now ← gettimeofday sys
      edit_conn p (λ c. record c { stillneedtoread = header_size; begin_time = now })
      pure (some fd)
  ]

-- What the client is told when the web server has been reached. The status of the agent connection
-- becomes `s_forward`, as the source writes it.
unfoldable pub announce : System → ℕ → ℕ → ℕ → Action (Unit {0})
announce sys p sp t = do
  s ← scb_at sp
  if not (s.status == 0)
      then (do
        edit_conn p (λ c. record c { status = s_forward })
        c ← conn_at p
        up ← pointer c.user
        u ← user_at up
        send_tms_msg sys t (login_answer RespCode.ready u.balance s.forward_id)
        skip)
      else (send_tms_msg sys t (login_answer RespCode.agent_estasblished 0 s.forward_id) >> skip)

-- A web server has been reached for a block with a tunnel.
unfoldable pub reached : System → ℕ → ℕ → ℕ → ℕ → Action Status
reached sys fd p sp t = do
  edit_conn t (λ c. record c { agent_status = 1 })
  id ← new_forward_id
  edit_scb sp (λ s. record s { forward_id = id; connected = 1 })
  announce sys p sp t
  if fd == 0 then skip else call (epoll_mod fd (epollin + epollet))
  pure ok

-- `HandleEPOEvent` for a connection in progress.
unfoldable pub establish : System → ℕ → ℕ → Action Status
establish sys fd p = do
  edit_conn p (λ c. record c { status = sta_online; agent_status = 1 })
  c ← conn_at p
  elim c.scb [
    | none ↦ (erase_conn fd >> pure failed)
    | some sp ↦ do
      s ← scb_at sp
      elim s.tunnel_conn [ none ↦ (erase_conn fd >> pure failed) | some t ↦ reached sys fd p sp t ]
  ]

-- The bytes of the agent that its tunnel has taken.
unfoldable pub advance_agent : ℕ → Connect → ℕ → Action (Unit {0})
advance_agent ap ac n =
    if n == ac.datalen
    then (do
      edit_conn ap (λ a. record a { offset = 0; stillneedtoread = 8192; status = sta_online })
      add_event ac.sock_fd epollin)
    else if ltb 0 n
    then put_conn ap (record ac { offset = (ac.offset + n) % 2 ^ 16; datalen = ac.datalen - n })
    else skip

-- The charge for them.
unfoldable pub charge_download : System → Connect → ℕ → Action Status
charge_download sys c n =
    if ltb 0 n
    then (do up ← pointer c.user; record_traffic_at up c.scb (traffic_est sys.accurate n))
    else pure ok

-- `HandleEPOEvent` for a tunnel that forwards and can take bytes again.
unfoldable pub resume_download : System → ℕ → Connect → Action Status
resume_download sys fd c = do
  sp ← pointer c.scb
  s ← scb_at sp
  ap ← pointer s.agent_conn
  ac ← conn_at ap
  if ac.datalen == 0 then pure ok else (do
    wrotelen ← send sys fd (Message.forwarded ap ac.offset ac.datalen) ac.datalen
    elim wrotelen [ none ↦ pure ok | some n ↦ (advance_agent ap ac n >> charge_download sys c n) ])

-- The results 0, -1 and -2.
pub data Handled : Type 0 where
  handled broken untouched : Handled

abbrev pub handled_of : Status → Handled
handled_of ok = handled
handled_of failed = broken

-- `HandleEPOEvent`
unfoldable pub handle_epo_event : System → ℕ → Action Handled
handle_epo_event sys fd = do
  found ← gets (λ w. w.conn_map fd)
  elim found [
    | none ↦ pure untouched
    | some p ↦ do
      c ← conn_at p
      if c.status == sta_inprogress
          then (establish sys fd p >>= λ r. pure (handled_of r))
          else if not (c.cstate == s_forward)
          then pure untouched
          else if not (c.type == t_tunnel)
          then pure handled
          else (resume_download sys fd c >>= λ r. pure (handled_of r))
  ]

-- The part of `InformShutdownUser` for an agent with a user.
unfoldable pub inform_user : System → ℕ → ℕ → ℕ → ℕ → Action (Unit {0})
inform_user sys fd p up sp = do
  report_or_accumulate_at sys up sp
  erase_conn fd
  s ← scb_at sp
  delete_peer s.tunnel_conn
  edit_scb sp (λ s. record s { agent_conn = none })
  edit_conn p (λ c. record c { scb = none; user = none })

-- `InformShutdownUser`; a descriptor from 2 ^ 63 on is negative.
unfoldable pub inform_shutdown_user : System → ℕ → Action Status
inform_shutdown_user sys fd = do
  found ← gets (λ w. w.conn_map fd)
  if leb (2 ^ 63) fd then pure failed else elim found [
    | none ↦ pure failed
    | some p ↦ do
      c ← conn_at p
      if c.type == t_agent
          then elim c.user [
            | none ↦ pure failed
            | some up ↦ do sp ← pointer c.scb; inform_user sys fd p up sp; pure ok
          ]
          else pure failed
  ]
