-- ===== src/Tms/Session.antt =====
-- What the proxy server does with the messages of a client that has logged in and with the recorder's
-- answer: the cases BEGIN_TRANSMIT and READ_TOKEN_RSP of `HandleRecvMsg` of tms/tms/ConnectMgr.cpp.
pub mod Stream
pub mod Complete
pub mod Refused
pub mod EndToEnd
use https_tunnel_proxy.Base.{
  ℕ, ◌+◌, ◌-◌, ◌%◌, ◌^◌, Bool, not, ◌||◌, Option, none, some, List, ltb, ◌==◌, if◌then◌else◌,
  get_elem?, bytes_eq,
}
use https_tunnel_proxy.Base.Int.{add64}
use https_tunnel_proxy.Wire.RespCode
use https_tunnel_proxy.Wire.Messages.{ReadTokenRsp, SynUserTuple}
use https_tunnel_proxy.Recorder.CString.{c_string}
use https_tunnel_proxy.Tms.Types.{Scb, u_validated}
use https_tunnel_proxy.Tms.Accounting.{Status, ok, failed}
use https_tunnel_proxy.Tms.World.{Connect, System, Message, s_forward}
use https_tunnel_proxy.Tms.World.Action.{
  Action, pure, gets, pointer, ◌>>=◌, ◌>>◌, skip, conn_at, scb_at, edit_conn, edit_user, edit_scb,
}
use https_tunnel_proxy.Tms.Connection.{send_tms_msg}
use https_tunnel_proxy.Tms.Removal.{remove_conn}

-- `HandleRecvMsg` on BEGIN_TRANSMIT, whose `forward_id` has 32 bits.
unfoldable pub on_begin_transmit : ℕ → ℕ → Action Status
on_begin_transmit p id = do
  c ← conn_at p
  elim c.scb [
    | none ↦ pure failed
    | some sp ↦ do
      s ← scb_at sp
      if s.forward_id == id % 2 ^ 32
          then elim s.agent_conn [
            | none ↦ pure ok
            | some a ↦ do
              edit_conn p (λ c. record c { cstate = s_forward; stillneedtoread = 8192 })
              pure ok
          ]
          else pure ok
  ]

-- `0 == strcmp(a, b)`
unfoldable pub strcmp_eq : List ℕ → List ℕ → Bool
strcmp_eq a b = bytes_eq (c_string a) (c_string b)

abbrev pub login_answer : ℕ → ℕ → ℕ → Message
login_answer code traffic id =
    Message.login (record { rsp_code = code; avalable_traffic = traffic; forward_id = id })

-- READ_TOKEN_RSP for a client whose token is refused.
unfoldable pub refuse : System → ℕ → ReadTokenRsp → Action (Unit {0})
refuse sys p r = do
  send_tms_msg sys p (login_answer r.rsp_code 0 0)
  edit_conn p (λ c. record c { exit = 1 })
  c ← conn_at p
  remove_conn sys c.sock_fd

-- The user's address for the meter.
unfoldable pub tuple_of : Connect → Option (ℕ × ℕ) → SynUserTuple
tuple_of c none = record { app = c.app; mobile = c.mobile; src_ip_be = 0; src_port_be = 0 }
tuple_of c (some (ip, port)) = record {
  app = c.app;
  mobile = c.mobile;
  src_ip_be = ip;
  src_port_be = port;
}

-- The message to the meter.
unfoldable pub tell_dpi : System → ℕ → Action (Unit {0})
tell_dpi sys p = do
  c ← conn_at p
  calls ← gets (λ w. w.calls)
  pool ← gets (λ w. w.dpi_pool)
  d ← pointer (get_elem? pool 0)
  send_tms_msg sys d (Message.syn_user (tuple_of c (sys.getpeername calls c.sock_fd)))
  skip

-- What a client is told once its token is right.
unfoldable pub welcome : ℕ → Scb → Message
welcome balance s =
    if not (s.connected == 0)
    then login_answer RespCode.ready balance s.forward_id
    else login_answer RespCode.token_verified balance 0

-- The block, the user and the connection of a client whose token is right; the result is the block.
unfoldable pub mark_validated : ℕ → ℕ → ReadTokenRsp → Action Scb
mark_validated p sp r = do
  edit_scb sp (λ s. record s { status = u_validated })
  c ← conn_at p
  up ← pointer c.user
  edit_user up (λ u. record u { balance = r.balance })
  edit_scb sp (λ s. record s { traffic = add64 s.traffic c.traffic_tmp })
  edit_conn p (λ c. record c { traffic_tmp = 0 })
  scb_at sp

-- READ_TOKEN_RSP for a client with a block whose token is right.
unfoldable pub validate : System → ℕ → ℕ → ReadTokenRsp → Action (Unit {0})
validate sys p sp r = do
  s ← mark_validated p sp r
  send_tms_msg sys p (welcome r.balance s)
  tell_dpi sys p

-- `int cid = r->cid`, as `GetConn` takes it: the low 32 bits, with their sign.
unfoldable pub client_fd : ReadTokenRsp → ℕ
client_fd r = let cid = r.cid % 2 ^ 32 in if ltb cid (2 ^ 31) then cid else cid + (2 ^ 64 - 2 ^ 32)

-- `HandleRecvMsg` on READ_TOKEN_RSP.
unfoldable pub on_read_token_rsp : System → ReadTokenRsp → Action (Unit {0})
on_read_token_rsp sys r = do
  found ← gets (λ w. w.conn_map (client_fd r))
  elim found [
    | none ↦ skip
    | some p ↦ do
      c ← conn_at p
      if not (r.rsp_code == 0) || not (strcmp_eq c.token r.token) then refuse sys p r else (do
        edit_conn p (λ c. record c { sdk_verified = 1 })
        elim c.scb [ none ↦ remove_conn sys c.sock_fd | some sp ↦ validate sys p sp r ])
  ]
