-- ===== src/Sdk/Proxy.antt =====
-- What the client gets from a local program: `ProxyRecvEvent`, `HandleProxyProtocol` and
-- `HandleRecvEvent` of sdk/sdk/ConnectMgr.cpp, with the request for a login of sdk/sdk/YMEMessage.h.
use https_tunnel_proxy.Base.{
  ℕ, ◌+◌, ◌-◌, ◌%◌, ◌^◌, min, List, [], ◌∷◌, ◌++◌, none, some, length, take, drop, ltb, leb, ◌==◌,
  if◌then◌else◌,
}
use https_tunnel_proxy.Base.State.{pure, undefined, ◌>>=◌, ◌>>◌, skip, gets}
use https_tunnel_proxy.Wire.Bytes.{le}
use https_tunnel_proxy.Wire.MessageEnum
use https_tunnel_proxy.Sdk.World.{
  Connect, System, buff_size, t_proxy, ym_ev_rd, ym_ev_wr, ym_ev_once, received, woke,
}
use https_tunnel_proxy.Sdk.World.Action.{Action, call, conn_at, put_conn, edit_conn}
use https_tunnel_proxy.Sdk.Connection.{add_event, write, send_tms_msg, create_conn}
use https_tunnel_proxy.Sdk.Stream.{Round, more, again, failed, fill, recv_loop, stream_recv_event}
use https_tunnel_proxy.Sdk.Request.{
  Target, too_long, asks, parse_connect, find_host, starts_with, word_connect, before_zero,
}

-- struct LoginReq
pub record LoginReq : Type 0 where
  pub app : ℕ
  pub mobile : ℕ
  pub token : List ℕ
  pub port : ℕ
  pub host : List ℕ

unfoldable pub encode_login_req : LoginReq → List ℕ
encode_login_req r =
    le 2 MessageEnum.login_req
    ++ (le 8 r.app
        ++ (le 8 r.mobile ++ (r.token ++ (le 2 r.port ++ (le 2 (length r.host) ++ r.host)))))

-- What `YMEGet` prints and `atoll` reads again.
abbrev pub printed : ℕ → ℕ
printed n = min n (2 ^ 63 - 1)

-- The part of `HandleProxyProtocol` that connects to the proxy server once there is a host.
-- `sz_tmsport` of `YMEGet` has room for seven digits; the port is the one before `htons`.
unfoldable pub connect_tms : System → ℕ → Action Round
unfolding create_conn
connect_tms sys p = do
  c ← conn_at p
  env ← gets (λ w. w.env)
  if length c.host == 0
      then pure again
      else if leb (10 ^ 7) env.g_tmsport
      then undefined
      else (create_conn sys (sys.inet_addr env.g_tmsip) (env.g_tmsport % 2 ^ 16) >>= λ pc. elim pc [
        | none ↦ pure failed
        | some q ↦ do
          edit_conn p (λ c. record c { peer = some q })
          edit_conn q (λ c. record c { peer = some p })
          pure more
      ])

-- The host and the port that CONNECT gives.
abbrev pub with_target : Target → Connect → Connect
with_target t c = record c {
  host = t.host;
  web_port = elim t.port [ none ↦ c.web_port | some n ↦ n ];
}

-- `HandleProxyProtocol` on the `n` bytes at the front of `r_buff`: `more` is 0, `again` -2.
unfoldable pub handle_proxy_protocol : System → ℕ → ℕ → Action Round
unfolding connect_tms parse_connect find_host starts_with
handle_proxy_protocol sys p n = do
  c ← conn_at p
  if starts_with word_connect c.r_buff
      then (do
        edit_conn p (λ c. record c { http_version = 1 })
        elim (parse_connect (drop 8 c.r_buff)) [
          | none ↦ undefined
          | some too_long ↦ pure failed
          | some (asks t) ↦ edit_conn p (with_target t) >> connect_tms sys p
        ])
      else (do
        elim (find_host n 0 c.r_buff) [
          | none ↦ skip
          | some h ↦ edit_conn p (λ c. record c { host = h })
        ]
        connect_tms sys p)

-- The part of the loop for a tunnel that is not verified yet: `auth` has 32 bytes, `login_str` 512.
unfoldable pub log_in : System → ℕ → ℕ → ℕ → Action (Unit {0})
unfolding send_tms_msg add_event encode_login_req before_zero
log_in sys p q n = do
  edit_conn p (λ c. record c { r_data_len = (c.r_data_len + n) % 2 ^ 32 })
  c ← conn_at p
  env ← gets (λ w. w.env)
  let auth = before_zero env.g_auth
  if ltb 31 (length auth)
      then undefined
      else edit_conn q (λ t. record t {
        auth = auth;
        uid = printed env.g_appid;
        mobile = printed env.g_phone;
        host = c.host;
        web_port = c.web_port;
      })
  stale ← gets (λ w. sys.stale_token w.calls)
  t ← conn_at q
  if ltb 458 (length t.host)
      then undefined
      else send_tms_msg sys q (
          encode_login_req (record {
            app = t.uid;
            mobile = t.mobile;
            token = auth ++ 0 ∷ drop (length auth + 1) stale;
            port = t.web_port;
            host = t.host;
          }))
  add_event sys t.sock_fd (ym_ev_rd + ym_ev_wr + ym_ev_once)
  skip

-- The part of the loop for a connection that has a peer.
unfoldable pub upload : System → ℕ → ℕ → Action Round
unfolding write log_in
upload sys p n = do
  c ← conn_at p
  elim c.peer [
    | none ↦ pure more
    | some q ↦ do
      t ← conn_at q
      if t.sock_fd == 0
          then skip
          else if t.verified == 0
          then log_in sys p q n
          else (write sys t.sock_fd (take n (drop c.r_offset c.r_buff)) >> skip)
      pure more
  ]

-- The body of the loop, for the bytes that `recv` gave.
unfoldable pub proxy_round : System → ℕ → List ℕ → Action Round
unfolding handle_proxy_protocol upload
proxy_round sys p bs = do
  c ← conn_at p
  call (received c.sock_fd bs)
  if ltb buff_size (c.r_offset + length bs)
      then undefined
      else put_conn p (record c { r_buff = fill c.r_offset bs c.r_buff })
  r ← elim c.peer [
    | none ↦ handle_proxy_protocol sys p (c.r_offset + length bs)
    | some q ↦ pure more
  ]
  elim r [
    | failed ↦ call (woke p) >> pure failed
    | again ↦ pure again
    | more ↦ upload sys p (length bs)
  ]

-- `ProxyRecvEvent`
unfoldable pub proxy_recv_event : System → ℕ → List (List ℕ) → Action (Round × List (List ℕ))
unfolding proxy_round recv_loop
proxy_recv_event sys p bss = recv_loop (proxy_round sys p) bss

-- `HandleRecvEvent`
unfoldable pub handle_recv_event : System → ℕ → List (List ℕ) → Action (Round × List (List ℕ))
unfolding proxy_recv_event stream_recv_event
handle_recv_event sys fd bss = do
  found ← gets (λ w. w.conn_map fd)
  elim found [
    | none ↦ pure (failed, bss)
    | some none ↦ pure (failed, bss)
    | some (some p) ↦ do
      c ← conn_at p
      if c.type == t_proxy
          then proxy_recv_event sys p bss
          else (edit_conn p (λ c. record c { host = [] }) >> stream_recv_event sys p bss)
  ]
