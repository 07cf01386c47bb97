-- ===== src/Sdk/Connection.antt =====
-- The client's connections: the events of a socket, `SendMsg`, `SendTmsMsg`, `~Connect`, `CreateConn`,
-- `HandleAcceptEvent` and `RemoveConnect` of sdk/sdk/ConnectMgr.cpp, for Linux.
use Prim.Native.Nat.{bit_and, bit_or}
use https_tunnel_proxy.Base.{
  ℕ, ◌+◌, ◌-◌, ◌*◌, ◌/◌, ◌%◌, ◌^◌, Bool, true, false, not, ◌&&◌, ◌||◌, List, ◌++◌, Option, none,
  some, length, ltb, leb, ◌==◌, if◌then◌else◌,
}
use https_tunnel_proxy.Base.Int.{pos, ◌+ℤ◌, ◌-ℤ◌, ltb_ℤ}
use https_tunnel_proxy.Base.State.{pure, undefined, ◌>>=◌, ◌>>◌, skip, gets, modify, pointer}
use https_tunnel_proxy.Wire.Bytes.{header}
use https_tunnel_proxy.Tms.World.{
  set, unset, epollin, epollout, epollet, s_header, sta_offline, sta_online,
}
use https_tunnel_proxy.Sdk.World.{
  Connect, Call, System, at, new_connect, buff_size, t_tunnel, t_proxy, sta_disconnected, ym_ev_rd,
  ym_ev_wr, ym_ev_ex, ym_ev_once, wrote, epoll_add, epoll_mod, epoll_del, shut, closed, woke,
  asked_socket,
}
use https_tunnel_proxy.Sdk.World.Action.{Action, call, conn_at, edit_conn, gettimeofday}
use https_tunnel_proxy.Sdk.Recycler.{crb_new, crb_delete, edit_block, seconds}

-- `if (event & flag)`, and the flag of epoll that it sets.
abbrev pub flag : ℕ → ℕ → ℕ → ℕ
flag event f e = if bit_and event f == 0 then 0 else e

unfoldable pub epoll_flags : ℕ → ℕ
epoll_flags event = bit_or (flag event ym_ev_rd epollin) (
    bit_or (flag event ym_ev_wr epollout)
      (bit_or (flag event ym_ev_ex epollout) (flag event ym_ev_once epollet)))

-- A call of `epoll_ctl` on a descriptor, and whether it succeeds; a descriptor that is 0 is refused.
unfoldable pub control : System → ℕ → Call → Action Bool
control sys fd c =
    if (sys.reactor_fd == 0) || (fd == 0)
    then pure false
    else call c >> gets (λ w. sys.epoll_ctl w.calls)

-- `AddREvent`
unfoldable pub add_r_event : System → ℕ → Action Bool
unfolding control
add_r_event sys fd = control sys fd (epoll_add fd (bit_or epollin epollet))

-- `AddEvent`
unfoldable pub add_event : System → ℕ → ℕ → Action Bool
unfolding control epoll_flags
add_event sys fd event = control sys fd (epoll_add fd (epoll_flags event))

-- `RemoveEvent`, which knows no YM_EV_ONCE.
unfoldable pub remove_event : System → ℕ → ℕ → Action Bool
unfolding control
remove_event sys fd rmevents = control sys fd (
    epoll_del fd (
      bit_or (flag rmevents ym_ev_rd epollin)
        (bit_or (flag rmevents ym_ev_wr epollout) (flag rmevents ym_ev_ex epollout))))

-- `ModifyEvent`, whose tests are `event | flag`.
unfoldable pub modify_event : System → ℕ → ℕ → Action Bool
unfolding control
modify_event sys fd event = control sys fd (epoll_mod fd (bit_or epollin (bit_or epollout epollet)))

-- `write`; the bytes that were handed over and the result are in the call.
unfoldable pub write : System → ℕ → List ℕ → Action (Option ℕ)
write sys fd bs = do n ← gets (λ w. sys.write w.calls fd (length bs)); call (wrote fd bs n); pure n

-- The result of `write` added to a U64; -1 takes one away.
abbrev pub add_length : ℕ → Option ℕ → ℕ
add_length x none = (x + (2 ^ 64 - 1)) % 2 ^ 64
add_length x (some n) = (x + n) % 2 ^ 64

-- `Traffic_Est`
unfoldable pub traffic_est : Bool → Option ℕ → Option ℕ
traffic_est accurate none = none
traffic_est accurate (some x) =
    some (if accurate && not (ltb x 5) then x + 40 * 2 + x / 1400 * 40 else x)

-- `Traffic_TCP_hss`
unfoldable pub traffic_tcp_hss : Bool → ℕ
traffic_tcp_hss accurate = if accurate then 7 * 40 + 2 * 20 else 0

-- Both counters grow.
unfoldable pub count : ℕ → Option ℕ → Action (Unit {0})
count p n = do
  edit_conn p (λ c. record c { http_transmit_len = add_length c.http_transmit_len n })
  modify (λ w. record w { g_rpt_traff_cost = add_length w.g_rpt_traff_cost n })

-- `SendMsg`
unfoldable pub send_msg : System → ℕ → List ℕ → Action (Unit {0})
unfolding write count
send_msg sys p msg = do c ← conn_at p; n ← write sys c.sock_fd msg; count p n

-- `SendTmsMsg`; `tmsMsg` has 1024 bytes.
unfoldable pub send_tms_msg : System → ℕ → List ℕ → Action (Unit {0})
unfolding write count traffic_est
send_tms_msg sys p msg = if ltb 1024 (6 + length msg) then undefined else (do
  c ← conn_at p
  n ← write sys c.sock_fd (header (length msg) ++ msg)
  count p (traffic_est sys.accurate n))

-- `~Connect` and the freeing of the object.
unfoldable pub delete_connect : System → ℕ → Action (Unit {0})
unfolding remove_event crb_delete
delete_connect sys p = do
  c ← conn_at p
  if c.sock_fd == 0 then skip else (remove_event sys c.sock_fd ym_ev_rd >> call (shut c.sock_fd))
  if c.type == t_proxy then crb_delete c.crb_it else skip
  modify (λ w. record w { conns = unset w.conns p })

-- `_ConnMap.erase`
abbrev pub erase_conn : ℕ → Action (Unit {0})
erase_conn fd = modify (λ w. record w { conn_map = unset w.conn_map fd })

-- `_ConnMap.erase(c->peer->sock_fd); delete c->peer;`
unfoldable pub delete_peer : System → Option ℕ → Action (Unit {0})
unfolding delete_connect
delete_peer sys none = skip
delete_peer sys (some q) = do d ← conn_at q; erase_conn d.sock_fd; delete_connect sys q

-- `c->type == t_proxy || c->peer->type == t_proxy`
unfoldable pub has_proxy : Connect → Action Bool
has_proxy c =
    if c.type == t_proxy
    then pure true
    else (do q ← pointer c.peer; d ← conn_at q; pure (d.type == t_proxy))

-- `RemoveConnect`; a descriptor from 2 ^ 63 on is negative.
unfoldable pub remove_connect : System → ℕ → Action (Unit {0})
unfolding delete_peer delete_connect has_proxy remove_event
remove_connect sys fd = do
  found ← gets (λ w. w.conn_map fd)
  if leb (2 ^ 63) fd then skip else elim found [
    | none ↦ do remove_event sys fd ym_ev_rd; call (shut fd)
    | some none ↦ undefined
    | some (some p) ↦ do
      edit_conn p (λ c. record c { status = sta_disconnected })
      c ← conn_at p
      pair ← has_proxy c
      if pair
          then (do delete_peer sys c.peer; erase_conn c.sock_fd; delete_connect sys p)
          else call (woke p)
      modify (λ w. record w { conn_count = w.conn_count -ℤ pos 1 })
  ]

-- `new Connect`
unfoldable pub new_conn : Action ℕ
new_conn w = some (
  w.next_conn,
  record w { conns = set w.conns w.next_conn new_connect; next_conn = w.next_conn + 1 },
)

-- `Connect::Reset`, which keeps the peer and `verified`.
unfoldable pub reset_connect : Connect → Connect
reset_connect c = record c {
  stillneedtoread = 0;
  cstate = s_header;
  status = sta_offline;
  type = 0;
  uid = 0;
  sock_fd = 2 ^ 64 - 1;
}

-- Whether the time window lets a connection in; if it does it starts anew.
unfoldable pub let_in : System → Action Bool
unfolding gettimeofday
let_in sys = do
  time_window ← gets (λ w. w.time_window)
  if time_window == 0 then pure true else (do
    now ← gettimeofday sys
    begin ← gets (λ w. w.accept_begin_time)
    if ltb_ℤ (pos 5000000) (pos now -ℤ pos begin)
        then pure false
        else (modify (λ w. record w { accept_begin_time = now }) >> pure true))

-- The object for a descriptor that was accepted.
unfoldable pub conn_for : ℕ → Action ℕ
unfolding new_conn reset_connect
conn_for fd = do
  found ← gets (λ w. w.conn_map fd)
  elim found [
    | none ↦ new_conn
    | some none ↦ undefined
    | some (some p) ↦ edit_conn p reset_connect >> pure p
  ]

-- The part of `HandleAcceptEvent` for a descriptor that is let in.
unfoldable pub enter : System → ℕ → Action (Unit {0})
unfolding conn_for crb_new gettimeofday
enter sys fd = do
  p ← conn_for fd
  edit_conn p (λ c. record c { sock_fd = fd })
  modify (λ w. record w { conn_map = set w.conn_map fd (some p) })
  edit_conn p (λ c. record c { stillneedtoread = buff_size; type = t_proxy })
  n ← crb_new
  edit_conn p (λ c. record c { crb_it = at n })
  now ← gettimeofday sys
  edit_block n (λ b. record b { fd = fd; conn = some p; tv_sec = seconds now })
  modify (λ w. record w { conn_count = w.conn_count +ℤ pos 1 })

-- `HandleAcceptEvent`: the descriptor, `none` for 0 and for an error.
unfoldable pub handle_accept_event : System → Action (Option ℕ)
unfolding let_in enter
handle_accept_event sys = do
  new ← gets (λ w. sys.accept w.calls)
  elim new [
    | none ↦ pure none
    | some fd ↦ if fd == 0 then pure none else (do
      ok ← let_in sys
      if ok then (enter sys fd >> pure (some fd)) else (call (closed fd) >> pure none))
  ]

-- `CreateConn`: the address of the connection to the proxy server.
unfoldable pub create_conn : System → ℕ → ℕ → Action (Option ℕ)
unfolding new_conn
create_conn sys ip port = do
  call asked_socket
  s ← gets (λ w. sys.socket w.calls)
  elim s [
    | none ↦ pure none
    | some fd ↦ if fd == 0 then pure none else (do
      ok ← gets (λ w. sys.connect w.calls ip port)
      if ok
          then (do
            p ← new_conn
            modify (λ w. record w { conn_map = set w.conn_map fd (some p) })
            edit_conn p (λ c. record c {
              sock_fd = fd;
              status = sta_online;
              cstate = s_header;
              type = t_tunnel;
              r_data_len = 0;
              stillneedtoread = 6;
            })
            pure (some p))
          else (call (closed fd) >> pure none))
  ]
