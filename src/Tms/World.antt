-- ===== src/Tms/World.antt =====
-- The proxy server's state while it serves clients: `Connect` and `ConnectMgr` of
-- tms/tms/ConnectMgr.h, `UserMgr` of tms/tms/UserMgr.h, with every object at its address. An object
-- that is deleted is gone from its heap. What the operating system answers is the argument `System`,
-- which reads the calls made so far, the last one first.
pub mod Action
use https_tunnel_proxy.Base.{
  ℕ, ◌-◌, ◌^◌, Bool, List, [], Option, none, some, replicate, ◌==◌, if◌then◌else◌,
}
use https_tunnel_proxy.Wire.Messages.{Timeval, LoginRsp, ReadTokenReq, SynUserTuple}
use https_tunnel_proxy.Tms.Types.{User, no_time}
use https_tunnel_proxy.Tms.ScbMgr.{ScbMgr}
use https_tunnel_proxy.Tms.WaitLists.{UscbId, Waiting}
use https_tunnel_proxy.Tms.Accounting.{Report}

-- enum Trans_stat
abbrev pub s_header : ℕ
s_header = 0

abbrev pub s_body : ℕ
s_body = 1

abbrev pub s_forward : ℕ
s_forward = 2

-- enum Conn_type
abbrev pub t_tunnel : ℕ
t_tunnel = 0

abbrev pub t_agent : ℕ
t_agent = 1

abbrev pub t_dns : ℕ
t_dns = 2

abbrev pub t_center : ℕ
t_center = 3

abbrev pub t_dpi : ℕ
t_dpi = 5

-- enum Sock_stat
abbrev pub sta_offline : ℕ
sta_offline = 0

abbrev pub sta_online : ℕ
sta_online = 1

abbrev pub sta_inprogress : ℕ
sta_inprogress = 2

abbrev pub sta_hangup : ℕ
sta_hangup = 3

-- The buffer `buff` is left out: Tms/Download has it.
pub record Connect : Type 0 where
  pub sock_fd : ℕ
  pub status : ℕ
  pub type : ℕ
  pub sdk_verified : ℕ
  pub agent_status : ℕ
  pub exit : ℕ
  pub app : ℕ
  pub mobile : ℕ
  pub token : List ℕ
  pub dest_port : ℕ
  pub user : Option ℕ
  pub scb : Option ℕ
  pub curr_host : List ℕ
  pub traffic_tmp : ℕ
  pub begin_time : Timeval
  pub cstate : ℕ
  pub stillneedtoread : ℕ
  pub offset : ℕ
  pub datalen : ℕ

-- `new Connect`
unfoldable pub new_connect : Connect
new_connect = record {
  sock_fd = 0;
  status = 0;
  type = 0;
  sdk_verified = 0;
  agent_status = 0;
  exit = 0;
  app = 0;
  mobile = 0;
  token = replicate 32 0;
  dest_port = 80;
  user = none;
  scb = none;
  curr_host = [];
  traffic_tmp = 0;
  begin_time = no_time;
  cstate = s_header;
  stillneedtoread = 0;
  offset = 0;
  datalen = 0;
}

-- `Connect::Reset`: `offset` and `datalen`, which it declares anew, keep their values.
unfoldable pub reset_connect : Connect → Connect
reset_connect c = record c {
  stillneedtoread = 0;
  cstate = s_header;
  status = sta_offline;
  sdk_verified = 0;
  agent_status = 0;
  type = 0;
  app = 0;
  user = none;
  scb = none;
  sock_fd = 2 ^ 64 - 1;
}

-- What the server writes to a socket.
pub data Message : Type 0 where
  login : LoginRsp → Message
  connect_host : ℕ → Message
  read_token : ReadTokenReq → Message
  syn_user : SynUserTuple → Message
  dns_query : List ℕ → Message
  -- so many bytes of a connection's buffer, from an offset
  forwarded : ℕ → ℕ → ℕ → Message

-- The calls of the operating system whose order matters; `sent` is with the number of bytes that the
-- socket took, `none` for -1.
pub data Call : Type 0 where
  sent : ℕ → Message → Option ℕ → Call
  epoll_add epoll_mod epoll_del : ℕ → ℕ → Call
  closed : ℕ → Call
  -- `connect` of a descriptor to an address and a port
  asked_connect : ℕ → ℕ → ℕ → Call
  asked_socket asked_time : Call

pub record System : Type 0 where
  -- `send` on a socket, of so many bytes
  pub send : List Call → ℕ → ℕ → Option ℕ
  -- `accept`, `none` for an error
  pub accept : List Call → Option ℕ
  -- `socket`, `none` for an error
  pub socket : List Call → Option ℕ
  -- whether `connect` does not fail, or fails with EINPROGRESS
  pub connect : List Call → ℕ → ℕ → Bool
  -- `gettimeofday`
  pub now : List Call → Timeval
  -- `inet_addr`
  pub inet_addr : List ℕ → ℕ
  -- `getpeername`: address and port, in the network's order
  pub getpeername : List Call → ℕ → Option (ℕ × ℕ)
  -- `random`
  pub random : List Call → ℕ
  -- whether ACCURATE_TRAFFIC is defined
  pub accurate : Bool

pub record World : Type 0 where
  pub conns : ℕ → Option Connect
  pub next_conn : ℕ
  -- `_ConnMap`
  pub conn_map : ℕ → Option ℕ
  pub center_pool : List ℕ
  pub dns_pool : List ℕ
  pub dpi_pool : List ℕ
  pub users : ℕ → Option User
  pub next_user : ℕ
  -- `_UserMap`, by mobile and app
  pub user_map : ℕ → ℕ → Option ℕ
  -- `scb_tree`, by the user's address and the block's number
  pub scb_trees : ℕ → ℕ → Option ℕ
  pub aval_forward_id : ℕ
  pub scm : ScbMgr
  -- `_Cache`
  pub cache : List ℕ → Option ℕ
  -- `_waiting_scb` and `_expiring_scb`
  pub waiting_scb : List (List ℕ × UscbId)
  pub expiring_scb : List Waiting
  pub calls : List Call
  pub reports : List Report

-- The flags of epoll.
abbrev pub epollin : ℕ
epollin = 1

abbrev pub epollout : ℕ
epollout = 4

abbrev pub epollet : ℕ
epollet = 2 ^ 31

-- An entry of a heap or a map.
abbrev pub set {ℓ} : {A : Type ℓ} → (ℕ → Option A) → ℕ → A → ℕ → Option A
set h p a q = if p == q then some a else h q

abbrev pub unset {ℓ} : {A : Type ℓ} → (ℕ → Option A) → ℕ → ℕ → Option A
unset h p q = if p == q then none else h q
