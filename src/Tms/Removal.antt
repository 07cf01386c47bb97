-- ===== src/Tms/Removal.antt =====
-- The end of a connection: `RemoveConn` and `~Connect` of tms/tms/ConnectMgr.cpp, with `ReleaseSCB` of
-- tms/tms/UserMgr.cpp.
pub mod Ends
use https_tunnel_proxy.Base.{
  ℕ, ◌+◌, ◌^◌, ◌||◌, Option, none, some, List, [], ◌∷◌, ◌++◌, leb, ◌==◌, if◌then◌else◌,
}
use https_tunnel_proxy.Tms.Accounting.{Tunnel, report_or_accumulate}
use https_tunnel_proxy.Tms.ScbMgr.{recycle_scb}
use https_tunnel_proxy.Tms.World.{
  Connect, System, closed, epoll_del, unset, t_tunnel, t_agent, t_center, epollin, epollout,
  epollet,
}
use https_tunnel_proxy.Tms.World.Action.{
  Action, pure, gets, pointer, ◌>>=◌, ◌>>◌, skip, modify, call, conn_at, user_at, scb_at, put_user,
  put_scb, edit_conn, edit_scb,
}
use https_tunnel_proxy.Tms.Connection.{gettimeofday}

-- `~Connect` and the freeing of the object.
unfoldable pub delete_conn : ℕ → Action (Unit {0})
delete_conn p = do
  c ← conn_at p
  if c.sock_fd == 0
      then skip
      else (call (epoll_del c.sock_fd (epollin + epollout + epollet)) >> call (closed c.sock_fd))
  elim c.scb [
    | none ↦ skip
    | some sp ↦
        if c.type == t_tunnel
        then edit_scb sp (λ s. record s { tunnel_conn = none })
        else if c.type == t_agent
        then edit_scb sp (λ s. record s { agent_conn = none })
        else skip
  ]
  modify (λ w. record w { conns = unset w.conns p })

-- `_ConnMap.erase`
abbrev pub erase_conn : ℕ → Action (Unit {0})
erase_conn fd = modify (λ w. record w { conn_map = unset w.conn_map fd })

-- What a report reads of the tunnel.
unfoldable pub tunnel_of : Option ℕ → Action (Option Tunnel)
tunnel_of none = pure none
tunnel_of (some t) = do
  c ← conn_at t
  pure (some (record { begin_time = c.begin_time; curr_host = c.curr_host }))

-- `ReportOrAccumulate` at its addresses.
unfoldable pub report_or_accumulate_at : System → ℕ → ℕ → Action (Unit {0})
report_or_accumulate_at sys up sp = do
  u ← user_at up
  s ← scb_at sp
  now ← gettimeofday sys
  later ← gettimeofday sys
  t ← tunnel_of s.tunnel_conn
  r ← pointer (report_or_accumulate sys.accurate now later u s t)
  put_user up r.user
  put_scb sp r.scb
  modify (λ w. record w { reports = w.reports ++ r.reports })

-- One end of a stream goes: the other is deleted.
unfoldable pub delete_peer : Option ℕ → Action (Unit {0})
delete_peer none = skip
delete_peer (some p) = do c ← conn_at p; erase_conn c.sock_fd; delete_conn p

-- `ReleaseSCB`
unfoldable pub release_scb : ℕ → Action (Unit {0})
release_scb sp w = elim (recycle_scb w.scm sp) [
  | none ↦ none
  | some m ↦ some (tt, record w { scm = m })
]

-- `RemoveConn` for one end of a stream that has a user and a block.
unfoldable pub remove_stream : System → ℕ → Connect → ℕ → ℕ → Action (Unit {0})
remove_stream sys p c up sp = do
  report_or_accumulate_at sys up sp
  if c.type == t_tunnel
      then (do
        edit_scb sp (λ s. record s { tunnel_conn = none })
        s ← scb_at sp
        delete_peer s.agent_conn)
      else (do
        edit_scb sp (λ s. record s { agent_conn = none })
        s ← scb_at sp
        delete_peer s.tunnel_conn)
  release_scb sp
  edit_conn p (λ c. record c { user = none })

-- `std::find` and `erase` on a pool.
abbrev pub without : ℕ → List ℕ → List ℕ
without p [] = []
without p (q ∷ qs) = let rest = without p qs in if q == p then qs else q ∷ rest

-- What `RemoveConn` does before it deletes the connection.
unfoldable pub leave : System → ℕ → Connect → Action (Unit {0})
leave sys p c =
    if c.type == t_center
    then modify (λ w. record w { center_pool = without p w.center_pool })
    else if (c.type == t_agent) || (c.type == t_tunnel)
    then elim c.user [
      | none ↦ skip
      | some up ↦ elim c.scb [ none ↦ skip | some sp ↦ remove_stream sys p c up sp ]
    ]
    else skip

-- `RemoveConn`; a descriptor from 2 ^ 63 on is negative.
unfoldable pub remove_conn : System → ℕ → Action (Unit {0})
remove_conn sys fd = do
  found ← gets (λ w. w.conn_map fd)
  if leb (2 ^ 63) fd then skip else elim found [
    | none ↦ skip
    | some p ↦ do c ← conn_at p; leave sys p c; delete_conn p; erase_conn fd
  ]
