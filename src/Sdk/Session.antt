-- ===== src/Sdk/Session.antt =====
-- The messages that the client sends and gets, at their addresses: `HandleRecvMsg`, `AckUserFail` and
-- `SwitchConnModeForw` of sdk/sdk/ConnectMgr.cpp and ConnectMgr.h, with the messages of
-- sdk/sdk/YMEMessage.h.
pub mod Opens
pub mod Arrives
use https_tunnel_proxy.Base.{
  ℕ, ◌+◌, ◌%◌, ◌^◌, Bool, not, List, [], ◌∷◌, ◌++◌, Option, none, some, length, take, ltb, ◌==◌,
  if◌then◌else◌,
}
use https_tunnel_proxy.Base.State.{pure, undefined, ◌>>=◌, ◌>>◌, skip, gets, modify, pointer}
use https_tunnel_proxy.Wire.Bytes.{le, field}
use https_tunnel_proxy.Wire.MessageEnum
use https_tunnel_proxy.Wire.RespCode
use https_tunnel_proxy.Wire.Messages.{LoginRsp, decode_login_rsp, msg_id}
use https_tunnel_proxy.Tms.World.{s_forward}
use https_tunnel_proxy.Sdk.Login.{
  Proxy, Client, Effect, begin_transmit, request, connection_established, read_again, wake,
  fail_page, on_login_rsp, login_code_of, ack_user_fail,
}
use https_tunnel_proxy.Sdk.World.{Connect, System, buff_size, woke, told_failure}
use https_tunnel_proxy.Sdk.World.Action.{Action, call, conn_at, edit_conn}
use https_tunnel_proxy.Sdk.Connection.{add_r_event, traffic_tcp_hss, send_msg, send_tms_msg}

-- struct BeginTransmit
unfoldable pub encode_begin_transmit : ℕ → List ℕ
encode_begin_transmit id = le 2 MessageEnum.begin_transmit ++ le 4 id

-- The answer to a CONNECT request.
abbrev pub connect_reply_ok : List ℕ
connect_reply_ok =
    b'H' ∷ b'T' ∷ b'T' ∷ b'P' ∷ b'/' ∷ b'1' ∷ b'.' ∷ b'1' ∷ 32 ∷ b'2' ∷ b'0' ∷ b'0' ∷ 32 ∷ b'C'
    ∷ b'o' ∷ b'n' ∷ b'n' ∷ b'e' ∷ b'c' ∷ b't' ∷ b'i' ∷ b'o' ∷ b'n' ∷ 32 ∷ b'e' ∷ b's' ∷ b't' ∷ b'a'
    ∷ b'b' ∷ b'l' ∷ b'i' ∷ b's' ∷ b'h' ∷ b'e' ∷ b'd' ∷ 13 ∷ 10 ∷ 13 ∷ 10 ∷ []

-- `SwitchConnModeForw`
unfoldable pub switch_conn_mode_forw : Bool → Connect → Connect
unfolding traffic_tcp_hss
switch_conn_mode_forw accurate c = record c {
  cstate = s_forward;
  stillneedtoread = buff_size;
  r_offset = 0;
  http_transmit_len = (c.http_transmit_len + traffic_tcp_hss accurate) % 2 ^ 64;
}

-- What `Sdk.Login` says of a connection, and its changes.
abbrev pub proxy_of : Connect → Proxy
proxy_of d = record {
  type = d.type;
  http_version = d.http_version;
  r_data_len = d.r_data_len;
  r_offset = d.r_offset;
  stillneedtoread = d.stillneedtoread;
}

abbrev pub client_of : Connect → Option Proxy → ℕ → Client
client_of c d g = record {
  aval_traffic = c.aval_traffic;
  verified = c.verified;
  cstate = c.cstate;
  stillneedtoread = c.stillneedtoread;
  r_offset = c.r_offset;
  login_code = c.login_code;
  peer = d;
  g_aval_traffic = g;
}

abbrev pub with_proxy : Proxy → Connect → Connect
with_proxy x d = record d {
  r_data_len = x.r_data_len;
  r_offset = x.r_offset;
  stillneedtoread = x.stillneedtoread;
}

abbrev pub with_client : Client → Connect → Connect
with_client x c = record c {
  aval_traffic = x.aval_traffic;
  verified = x.verified;
  cstate = x.cstate;
  stillneedtoread = x.stillneedtoread;
  r_offset = x.r_offset;
  login_code = x.login_code;
}

-- What the effects of `Sdk.Login` do for the connection at `p`; a read behind `r_buff` is undefined.
unfoldable pub perform : System → ℕ → Effect → Action (Unit {0})
unfolding send_tms_msg send_msg add_r_event encode_begin_transmit
perform sys p (begin_transmit id) = send_tms_msg sys p (encode_begin_transmit id)
perform sys p (request n) = do
  c ← conn_at p
  q ← pointer c.peer
  d ← conn_at q
  if ltb (length d.r_buff) n then undefined else send_msg sys p (take n d.r_buff)
perform sys p connection_established = do
  c ← conn_at p
  q ← pointer c.peer
  send_msg sys q connect_reply_ok
perform sys p read_again = do
  c ← conn_at p
  q ← pointer c.peer
  d ← conn_at q
  add_r_event sys d.sock_fd
  skip
perform sys p wake = call (woke p)
perform sys p (fail_page code) = do
  c ← conn_at p
  q ← pointer c.peer
  d ← conn_at q
  call (told_failure d.sock_fd code)

unfoldable pub perform_all : System → ℕ → List Effect → Action (Unit {0})
unfolding perform
perform_all sys p [] = skip
perform_all sys p (e ∷ es) = perform sys p e >> perform_all sys p es

abbrev pub put_proxy : Option ℕ → Option Proxy → Action (Unit {0})
put_proxy none x = skip
put_proxy (some q) none = skip
put_proxy (some q) (some x) = edit_conn q (with_proxy x)

-- The peer, if there is one.
abbrev pub proxy_at : Option ℕ → Action (Option Proxy)
proxy_at none = pure none
proxy_at (some q) = do d ← conn_at q; pure (some (proxy_of d))

-- The case LOGIN_RSP, in two parts: what it writes, and then what it sends, which reads none of it
-- before it is written.
unfoldable pub note_login_rsp : System → ℕ → LoginRsp → Action (List Effect)
unfolding on_login_rsp traffic_tcp_hss
note_login_rsp sys p r = do
  c ← conn_at p
  d ← proxy_at c.peer
  g ← gets (λ w. w.env.g_aval_traffic)
  let x = on_login_rsp r (client_of c d g)
  put_proxy c.peer x.1.peer
  edit_conn p (with_client x.1)
  modify (λ w. record w { env = record w.env { g_aval_traffic = x.1.g_aval_traffic } })
  if r.rsp_code == 0
      then edit_conn p (λ c. record c {
        http_transmit_len = (c.http_transmit_len + traffic_tcp_hss sys.accurate) % 2 ^ 64;
      })
      else skip
  pure x.0

unfoldable pub handle_login_rsp : System → ℕ → LoginRsp → Action (Unit {0})
unfolding note_login_rsp perform_all
handle_login_rsp sys p r = note_login_rsp sys p r >>= λ es. perform_all sys p es

-- The case CONNECT_HOST_RSP, whose `forward_id` has 32 bits.
unfoldable pub handle_connect_host_rsp : System → ℕ → ℕ → ℕ → Action (Unit {0})
unfolding switch_conn_mode_forw send_tms_msg encode_begin_transmit login_code_of ack_user_fail
    perform_all
handle_connect_host_rsp sys p code forward_id = if not (code == RespCode.succ) then skip else (do
  elim (login_code_of code) [
    | none ↦ skip
    | some lc ↦ do
      edit_conn p (λ c. record c { login_code = lc })
      c ← conn_at p
      d ← proxy_at c.peer
      perform_all sys p (ack_user_fail lc (client_of c d 0))
  ]
  edit_conn p (switch_conn_mode_forw sys.accurate)
  send_tms_msg sys p (encode_begin_transmit forward_id)
  call (woke p))

-- `HandleRecvMsg`
unfoldable pub handle_recv_msg : System → ℕ → List ℕ → Action (Unit {0})
unfolding handle_login_rsp handle_connect_host_rsp decode_login_rsp msg_id
handle_recv_msg sys p msg =
    if ltb (length msg) 4
    then skip
    else if msg_id msg == MessageEnum.login_rsp
    then handle_login_rsp sys p (decode_login_rsp msg)
    else if msg_id msg == MessageEnum.connect_host_rsp
    then handle_connect_host_rsp sys p (field msg 2 2) (field msg 4 4)
    else skip
