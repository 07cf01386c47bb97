-- ===== src/Sdk/Login.antt =====
-- The client's side of a login: the case LOGIN_RSP of `HandleRecvMsg`, and `AckUserFail`, of
-- sdk/sdk/ConnectMgr.cpp.
use https_tunnel_proxy.Base.{
  ℕ, ◌^◌, ◌%◌, List, [], ◌∷◌, ◌++◌, Option, none, some, ◌==◌, if◌then◌else◌,
}
use https_tunnel_proxy.Wire.RespCode
use https_tunnel_proxy.Wire.Messages.{LoginRsp}
use https_tunnel_proxy.Tms.World.{s_forward}

-- The connection of a local program, `peer`.
pub record Proxy : Type 0 where
  pub type : ℕ
  pub http_version : ℕ
  pub r_data_len : ℕ
  pub r_offset : ℕ
  pub stillneedtoread : ℕ

-- Why a login has failed: the values of `login_code` that this code sets, and 0.
pub data LoginCode : Type 0 where
  rt_data rt_user_not_exist rt_incorrect_token rt_no_balance rt_host_not_exist rt_exception :
      LoginCode

pub record Client : Type 0 where
  pub aval_traffic : ℕ
  pub verified : ℕ
  pub cstate : ℕ
  pub stillneedtoread : ℕ
  pub r_offset : ℕ
  pub login_code : LoginCode
  pub peer : Option Proxy
  -- the global of that name
  pub g_aval_traffic : ℕ

-- What the client does to others: BEGIN_TRANSMIT with its id, the request that the proxy has read so
-- far, the line that a CONNECT request is answered with, reading from the proxy again, `notify_one`,
-- and the page about a failure with the end of the proxy's connection.
pub data Effect : Type 0 where
  begin_transmit : ℕ → Effect
  request : ℕ → Effect
  connection_established read_again wake : Effect
  fail_page : LoginCode → Effect

-- Conn_type::t_proxy
abbrev pub t_proxy : ℕ
t_proxy = 4

-- `AckUserFail`
unfoldable pub ack_user_fail : LoginCode → Client → List Effect
ack_user_fail code c = elim c.peer [
  | none ↦ wake ∷ []
  | some p ↦ if p.type == t_proxy then fail_page code ∷ [] else wake ∷ []
]

-- The part for a proxy, once the tunnel is ready.
unfoldable pub start_proxy : Proxy → List Effect × Proxy
start_proxy p = (
  (if p.http_version == 0
        then request p.r_data_len ∷ []
        else if p.http_version == 1
        then connection_established ∷ []
        else [])
      ++ read_again ∷ [],
  record p { r_data_len = 0; r_offset = 0; stillneedtoread = 4096 },
)

-- The tunnel is ready: `verified`, `SwitchConnModeForw` and BEGIN_TRANSMIT, whose id has 32 bits.
unfoldable pub start : LoginRsp → Client → List Effect × Client
start r c =
    let c' = record c { verified = 1; cstate = s_forward; stillneedtoread = 4096; r_offset = 0 } in
    elim c.peer [
      | none ↦ (begin_transmit (r.forward_id % 2 ^ 32) ∷ wake ∷ [], c')
      | some p ↦
          let (es, p') = start_proxy p in
          (
            begin_transmit (r.forward_id % 2 ^ 32) ∷ es,
            record c' { peer = some p'; g_aval_traffic = c.aval_traffic },
          )
    ]

-- The code that a refusal sets, if it is one of those that the client knows.
unfoldable pub login_code_of : ℕ → Option LoginCode
login_code_of n =
    if n == RespCode.user_not_exist
    then some rt_user_not_exist
    else if n == RespCode.incorrect_token
    then some rt_incorrect_token
    else if n == RespCode.no_balance
    then some rt_no_balance
    else if n == RespCode.host_not_exist
    then some rt_host_not_exist
    else if n == RespCode.fail
    then some rt_exception
    else none

-- `HandleRecvMsg` on LOGIN_RSP.
unfoldable pub on_login_rsp : LoginRsp → Client → List Effect × Client
on_login_rsp r c0 =
    let c = record c0 {
      aval_traffic = if r.avalable_traffic == 0 then c0.aval_traffic else r.avalable_traffic;
    } in
    if r.rsp_code == 0 then start r c else elim (login_code_of r.rsp_code) [
      | none ↦ ([], c)
      | some code ↦
          (ack_user_fail code (record c { login_code = code }), record c { login_code = code })
    ]
