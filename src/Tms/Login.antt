-- ===== src/Tms/Login.antt =====
-- The login of a client: the case LOGIN_REQ of `HandleRecvMsg`, and `IpOrHost`, of
-- tms/tms/ConnectMgr.cpp, with `AddWaitLists` of tms/tms/DnsCache.cpp.
pub mod Attach
pub mod Unverified
pub mod Again
pub mod Hosts
use https_tunnel_proxy.Base.{
  ℕ, ◌+◌, ◌*◌, ◌/◌, ◌%◌, ◌^◌, Bool, true, false, not, ◌&&◌, ◌||◌, Option, none, some, List, [], ◌∷◌,
  ◌++◌, length, take, drop, ltb, ◌==◌, if◌then◌else◌, get_elem?,
}
use https_tunnel_proxy.Wire.RespCode
use https_tunnel_proxy.Recorder.CString.{strlen}
use https_tunnel_proxy.Tms.Dns.{req_fill}
use https_tunnel_proxy.Tms.WaitLists.{UscbId, insert}
use https_tunnel_proxy.Tms.World.{System, Message}
use https_tunnel_proxy.Tms.World.Action.{
  Action, pure, gets, pointer, ◌>>=◌, ◌>>◌, skip, modify, conn_at, user_at, scb_at, put_conn,
  edit_conn,
}
use https_tunnel_proxy.Tms.Connection.{
  send_tms_msg, send_msg, create_scb, connect_web_server, retrieve_user,
}
use https_tunnel_proxy.Tms.Session.{login_answer}
use https_tunnel_proxy.Tms.Accounting.{Status, ok, failed}

-- `LoginReq` as it stands in the buffer: `host` is all bytes from the member `host` to the end of the
-- buffer.
pub record LoginReq : Type 0 where
  pub app : ℕ
  pub mobile : ℕ
  pub token : List ℕ
  pub port : ℕ
  pub host_len : ℕ
  pub host : List ℕ

-- The loop of `IpOrHost`, with the points so far; its result is whether `IpOrHost` returns 0.
unfoldable pub ip_or_host : ℕ → List ℕ → Bool
ip_or_host points [] = points == 3
ip_or_host points (b ∷ bs) =
    let rest = ip_or_host (if b == b'.' then points + 1 else points) bs in
    if not (b == b'.') && (ltb b b'0' && ltb b'9' b) then false else rest

-- `ntohl`
abbrev pub ntohl : ℕ → ℕ
ntohl x =
    x % 2 ^ 8 * 2 ^ 24
    + x / 2 ^ 8 % 2 ^ 8 * 2 ^ 16
    + x / 2 ^ 16 % 2 ^ 8 * 2 ^ 8
    + x / 2 ^ 24 % 2 ^ 8

-- `memcpy(token, r->token, strlen(r->token) + 1)`; `none`: it writes behind the array.
unfoldable pub store_token : List ℕ → List ℕ → Option (List ℕ)
store_token new old =
    let n = strlen new + 1 in if ltb 32 n then none else some (take n new ++ drop n old)

-- `curr_host`; `none`: the write of its end is behind the buffer.
unfoldable pub host_of : LoginReq → Option (List ℕ)
host_of r = if ltb r.host_len (length r.host) then some (take r.host_len r.host) else none

-- The request goes into the connection.
unfoldable pub take_request : ℕ → LoginReq → Action (List ℕ)
take_request p r = do
  c ← conn_at p
  token ← pointer (store_token r.token c.token)
  host ← pointer (host_of r)
  put_conn p (record c {
    app = r.app;
    mobile = r.mobile;
    dest_port = r.port;
    token = token;
    curr_host = host;
  })
  pure host

-- The question to the recorder.
unfoldable pub ask_center : System → ℕ → LoginReq → Action (Unit {0})
ask_center sys p r = do
  c ← conn_at p
  pool ← gets (λ w. w.center_pool)
  cn ← pointer (get_elem? pool 0)
  send_tms_msg sys cn (
      Message.read_token
        (record { cid = c.sock_fd; app = r.app; mobile = r.mobile; token = r.token }))
  skip

-- `AddWaitLists`
unfoldable pub add_wait_lists : List ℕ → ℕ → Action (Unit {0})
add_wait_lists host sp = do
  s ← scb_at sp
  up ← pointer s.user
  u ← user_at up
  let id : UscbId = record { mobile = u.mobile; app = u.app; scbid = s.scbid }
  modify (λ w. record w {
    waiting_scb = w.waiting_scb ++ (host, id) ∷ [];
    expiring_scb = insert (record { time = s.last_active_time.tv_sec; id = id }) w.expiring_scb;
  })

-- A host that has to be looked up.
unfoldable pub ask_dns : System → ℕ → ℕ → List ℕ → Action (Unit {0})
ask_dns sys p up host = do
  calls ← gets (λ w. w.calls)
  sp ← create_scb sys up p none
  add_wait_lists host sp
  pool ← gets (λ w. w.dns_pool)
  d ← pointer (get_elem? pool 0)
  send_msg sys d (req_fill (sys.random calls) host)
  skip

-- Whether there is a block.
abbrev pub is_some : Option ℕ → Bool
is_some none = false
is_some (some sp) = true

-- The connection to the host, in the three ways of the source. The result is whether the handler goes
-- on.
unfoldable pub reach_host : System → ℕ → ℕ → LoginReq → List ℕ → Action Bool
reach_host sys p up r host = do
  cached ← gets (λ w. w.cache host)
  let connect : ℕ → Action Bool =
      λ ip. connect_web_server sys up p ip r.port >>= λ scb. pure (is_some scb)
  if ip_or_host 0 host
      then connect (ntohl (sys.inet_addr host))
      else elim cached [ some ip ↦ connect ip | none ↦ (ask_dns sys p up host >> pure true) ]

-- The answer to a request without a mobile or without a host.
unfoldable pub warn : System → ℕ → Bool → Action (Unit {0})
warn sys p bad =
    if bad then (send_tms_msg sys p (login_answer RespCode.paramet_err 0 0) >> skip) else skip

-- The answer to a request that is under way.
unfoldable pub finish_login : System → ℕ → Bool → Action Status
finish_login sys p goes_on =
    if goes_on
    then (send_tms_msg sys p (login_answer RespCode.prog 0 0) >> pure ok)
    else pure failed

-- `HandleRecvMsg` on LOGIN_REQ.
unfoldable pub on_login_req : System → ℕ → LoginReq → Action Status
on_login_req sys p r = do
  host ← take_request p r
  warn sys p ((r.mobile == 0) || (length host == 0))
  ask_center sys p r
  up ← retrieve_user sys r.mobile r.app
  edit_conn p (λ c. record c { user = some up })
  goes_on ← reach_host sys p up r host
  finish_login sys p goes_on
