-- ===== src/Tms/Connection.antt =====
-- The operations on connections that the handlers share: `SendTmsMsg`, `SendMsg`, `CreateAgentConn` of
-- tms/tms/ConnectMgr.cpp, `RecordTraffic`, `CreateSCB`, `ConnectWebServer`, `RetrieveUser` of
-- tms/tms/UserMgr.cpp, `NewForwardId` of tms/tms/UserMgr.h.
pub mod ForwardIds
use https_tunnel_proxy.Base.{
  ℕ, ◌+◌, ◌-◌, ◌%◌, ◌^◌, ap, Bool, true, false, ◌&&◌, Option, none, some, List, length, ◌==◌,
  if◌then◌else◌,
}
use https_tunnel_proxy.Base.Int.{add64}
use https_tunnel_proxy.Wire.Bytes.{header_size}
use https_tunnel_proxy.Wire.RespCode
use https_tunnel_proxy.Wire.Messages.{Timeval}
use https_tunnel_proxy.Tms.Types.{User}
use https_tunnel_proxy.Tms.Accounting.{Status, ok, failed, record_traffic, traffic_est}
use https_tunnel_proxy.Tms.ScbMgr.{new_scb}
use https_tunnel_proxy.Tms.World.{
  Connect, System, Call, sent, closed, epoll_add, epollout, epollet, Message, new_connect, set,
  t_tunnel, t_agent, s_forward, sta_inprogress,
}
use https_tunnel_proxy.Tms.World.Action.{
  Action, pure, gets, pointer, ◌>>=◌, ◌>>◌, skip, call, conn_at, user_at, scb_at, put_user, put_scb,
  edit_conn, edit_scb,
}

-- sizeof of the structs
abbrev pub message_size : Message → ℕ
message_size (Message.login r) = 20
message_size (Message.connect_host code) = 8
message_size (Message.read_token r) = 58
message_size (Message.syn_user r) = 24
message_size (Message.dns_query bytes) = length bytes
message_size (Message.forwarded agent offset datalen) = datalen

-- `send`
unfoldable pub send : System → ℕ → Message → ℕ → Action (Option ℕ)
send sys fd m n = do
  calls ← gets (λ w. w.calls)
  let r = sys.send calls fd n
  call (sent fd m r)
  pure r

-- `RecordTraffic` at its addresses.
unfoldable pub record_traffic_at : ℕ → Option ℕ → ℕ → Action Status
record_traffic_at up none n = user_at up >>= λ u. pure failed
record_traffic_at up (some sp) n = do
  u ← user_at up
  s ← scb_at sp
  let r = record_traffic u (some s) n
  put_user up r.user
  s' ← pointer r.scb
  put_scb sp s'
  pure r.ret

abbrev pub is_paid : Status → Bool
is_paid ok = true
is_paid failed = false

-- The part of `SendTmsMsg` behind a `send` that took all bytes, for a tunnel.
unfoldable pub charge_tunnel : System → ℕ → Connect → ℕ → Action (Option ℕ)
charge_tunnel sys p c n = elim c.user [
  | none ↦ pure (some n)
  | some up ↦ do
    rec_ret ← record_traffic_at up c.scb (traffic_est sys.accurate n)
    if is_paid rec_ret
        then pure (some n)
        else (edit_conn p (λ c. record c { exit = 1 }) >> pure none)
]

-- `SendTmsMsg`; its result is not used anywhere.
unfoldable pub send_tms_msg : System → ℕ → Message → Action (Option ℕ)
send_tms_msg sys p m = do
  c ← conn_at p
  let n = header_size + message_size m
  r ← send sys c.sock_fd m n
  elim r [
    | none ↦ pure none
    | some k ↦ if (k == n) && (c.type == t_tunnel) then charge_tunnel sys p c n else pure (some k)
  ]

-- `SendMsg`, for a request to the name server.
unfoldable pub send_msg : System → ℕ → List ℕ → Action (Option ℕ)
send_msg sys p bytes = do c ← conn_at p; send sys c.sock_fd (Message.dns_query bytes) (length bytes)

-- `NewForwardId`
unfoldable pub new_forward_id : Action ℕ
new_forward_id w =
    let id = if w.aval_forward_id == 2 ^ 64 - 1 then 1 else w.aval_forward_id in
    some (id, record w { aval_forward_id = add64 id 1 })

-- `ConnectMgr::AddEvent`; the descriptor of the epoll set is not 0.
abbrev pub add_event : ℕ → ℕ → Action (Unit {0})
add_event fd events = if fd == 0 then skip else call (epoll_add fd events)

unfoldable pub gettimeofday : System → Action Timeval
gettimeofday sys = do calls ← gets (λ w. w.calls); call Call.asked_time; pure (sys.now calls)

-- `new Connect`, entered in `_ConnMap` under its descriptor.
unfoldable pub new_conn : ℕ → Connect → Action ℕ
new_conn fd c w = some (
  w.next_conn,
  record w {
    conns = set w.conns w.next_conn c;
    conn_map = set w.conn_map fd w.next_conn;
    next_conn = w.next_conn + 1;
  },
)

-- The connection that `CreateAgentConn` makes.
abbrev pub agent_connect : ℕ → Connect
agent_connect fd = record new_connect {
  sock_fd = fd;
  status = sta_inprogress;
  cstate = s_forward;
  type = t_agent;
  datalen = 0;
  stillneedtoread = 8192;
}

-- `CreateAgentConn` behind `socket`.
unfoldable pub connect_agent : System → ℕ → ℕ → ℕ → Action (Option ℕ)
connect_agent sys ip port fd = do
  calls ← gets (λ w. w.calls)
  call (Call.asked_connect fd (ip % 2 ^ 32) port)
  if sys.connect calls (ip % 2 ^ 32) port
      then (new_conn fd (agent_connect fd) >>= λ p. pure (some p))
      else (call (closed fd) >> pure none)

-- `CreateAgentConn`
unfoldable pub create_agent_conn : System → ℕ → ℕ → Action (Option ℕ)
create_agent_conn sys ip port = do
  calls ← gets (λ w. w.calls)
  call Call.asked_socket
  elim (sys.socket calls) [ none ↦ pure none | some fd ↦ connect_agent sys ip port fd ]

-- `NewSCB`, on the manager of the state.
unfoldable pub new_scb_at : Action ℕ
new_scb_at w = elim (new_scb w.scm) [ none ↦ none | some (p, m) ↦ some (p, record w { scm = m }) ]

-- A block is given its agent.
unfoldable pub set_agent : ℕ → ℕ → ℕ → Action (Unit {0})
set_agent up sp ap = do
  a ← conn_at ap
  edit_scb sp (λ s. record s { agent_conn = some ap; agent_fd = a.sock_fd })
  edit_conn ap (λ a. record a { user = some up; scb = some sp })

-- `scb_tree.insert`, which keeps an entry of the same number.
unfoldable pub enter_scb : ℕ → ℕ → ℕ → Action (Unit {0})
enter_scb up id sp w = some (
  tt,
  elim (w.scb_trees up id) [
    | none ↦ record w {
      scb_trees = λ q i. if q == up then set (w.scb_trees up) id sp i else w.scb_trees q i;
    }
    | some sp' ↦ w
  ],
)

-- `CreateSCB` for a tunnel without a block.
unfoldable pub create_new_scb : System → ℕ → ℕ → Option ℕ → Action ℕ
create_new_scb sys up tunnel agent = do
  sp ← new_scb_at
  c ← conn_at tunnel
  now ← gettimeofday sys
  edit_scb sp (λ s. record s {
    user = some up;
    dest_port = c.dest_port;
    tunnel_conn = some tunnel;
    tunn_fd = c.sock_fd;
    last_active_time = now;
  })
  edit_conn tunnel (λ c. record c { user = some up; scb = some sp })
  elim agent [ none ↦ skip | some ap ↦ set_agent up sp ap ]
  s ← scb_at sp
  enter_scb up s.scbid sp
  pure sp

-- `CreateSCB`
unfoldable pub create_scb : System → ℕ → ℕ → Option ℕ → Action ℕ
create_scb sys up tunnel agent = do
  c ← conn_at tunnel
  elim c.scb [ some sp ↦ pure sp | none ↦ create_new_scb sys up tunnel agent ]

-- The block of `ConnectWebServer`: the tunnel's, or a new one.
unfoldable pub scb_for_agent : System → ℕ → ℕ → ℕ → ℕ → Action ℕ
scb_for_agent sys up tunnel ap port = do
  c ← conn_at tunnel
  elim c.scb [
    | some sp ↦ do edit_scb sp (λ s. record s { dest_port = port }); set_agent up sp ap; pure sp
    | none ↦ create_scb sys up tunnel (some ap)
  ]

-- The part of `ConnectWebServer` behind the creation of the agent.
unfoldable pub attach_agent : System → ℕ → ℕ → ℕ → ℕ → Action (Option ℕ)
attach_agent sys up tunnel ap port = do
  sp ← scb_for_agent sys up tunnel ap port
  a ← conn_at ap
  add_event a.sock_fd (epollout + epollet)
  send_tms_msg sys tunnel (Message.connect_host RespCode.prog)
  pure (some sp)

-- `ConnectWebServer` behind `CreateAgentConn`.
unfoldable pub attach_or_fail : System → ℕ → ℕ → ℕ → Option ℕ → Action (Option ℕ)
attach_or_fail sys up tunnel port none = do
  send_tms_msg sys tunnel (Message.connect_host RespCode.fail)
  pure none
attach_or_fail sys up tunnel port (some ap) = attach_agent sys up tunnel ap port

-- `ConnectWebServer`
unfoldable pub connect_web_server : System → ℕ → ℕ → ℕ → ℕ → Action (Option ℕ)
connect_web_server sys up tunnel ip port = do
  agent ← create_agent_conn sys ip port
  attach_or_fail sys up tunnel port agent

-- The user that `RetrieveUser` makes.
abbrev pub new_user : ℕ → ℕ → Timeval → User
new_user mobile app now = record {
  mobile = mobile;
  app = app;
  forward_id = 0;
  traffic = 0;
  balance = 0;
  accu_start_time = now;
  status = 0;
  reporting = 0;
  con_report = 0;
}

unfoldable pub enter_user : ℕ → ℕ → Timeval → Action ℕ
enter_user mobile app now w = some (
  w.next_user,
  record w {
    users = set w.users w.next_user (new_user mobile app now);
    user_map = λ m a. if (m == mobile) && (a == app) then some w.next_user else w.user_map m a;
    next_user = w.next_user + 1;
  },
)

-- `RetrieveUser`
unfoldable pub retrieve_user : System → ℕ → ℕ → Action ℕ
retrieve_user sys mobile app = do
  found ← gets (λ w. w.user_map mobile app)
  elim found [ some up ↦ pure up | none ↦ (gettimeofday sys >>= λ now. enter_user mobile app now) ]
