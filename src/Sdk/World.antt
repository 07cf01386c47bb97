-- ===== src/Sdk/World.antt =====
-- The client library's state: `Connect` and `ConnectMgr` of sdk/sdk/ConnectMgr.h,
-- `ConnRecycleBlock` of sdk/sdk/Recycler.h and the globals of sdk/sdk/SdkEnv.cpp, with every
-- connection at its address. What the operating system answers is the argument `System`, which reads
-- the calls made so far, the last one first.
pub mod Action
use https_tunnel_proxy.Base.{ℕ, Bool, List, [], Option, none, replicate}
use https_tunnel_proxy.Base.Int.{ℤ}
use https_tunnel_proxy.Sdk.Login.{LoginCode, rt_data}
use https_tunnel_proxy.Tms.World.{s_header}

-- An iterator of `expire_list`: one that was never set, `end()`, or that of a node.
pub data Iterator : Type 0 where
  unset past_end : Iterator
  at : ℕ → Iterator

-- The members for the replies that `HandleRecvHttp` takes apart and `s_buff` are left out.
pub record Connect : Type 0 where
  pub sock_fd : ℕ
  pub status : ℕ
  pub type : ℕ
  pub verified : ℕ
  pub http_version : ℕ
  pub peer : Option ℕ
  pub http_transmit_len : ℕ
  pub aval_traffic : ℕ
  pub uid : ℕ
  pub mobile : ℕ
  pub auth : List ℕ
  pub login_code : LoginCode
  pub cstate : ℕ
  pub h_len : ℕ
  pub stillneedtoread : ℕ
  pub host : List ℕ
  pub web_port : ℕ
  pub r_offset : ℕ
  pub r_data_len : ℕ
  pub r_buff : List ℕ
  pub crb_it : Iterator

-- `sizeof(r_buff)`
abbrev pub buff_size : ℕ
buff_size = 4096

-- `new Connect`; what `auth` holds at first is not read.
unfoldable pub new_connect : Connect
new_connect = record {
  sock_fd = 0;
  status = 0;
  type = 0;
  verified = 0;
  http_version = 0;
  peer = none;
  http_transmit_len = 0;
  aval_traffic = 0;
  uid = 0;
  mobile = 0;
  auth = [];
  login_code = rt_data;
  cstate = s_header;
  h_len = 0;
  stillneedtoread = 0;
  host = [];
  web_port = 80;
  r_offset = 0;
  r_data_len = 0;
  r_buff = replicate buff_size 0;
  crb_it = unset;
}

-- The seconds of `tv`; no code reads its microseconds.
pub record ConnRecycleBlock : Type 0 where
  pub tv_sec : ℕ
  pub fd : ℕ
  pub traffic : ℕ
  pub conn : Option ℕ

-- A node of `expire_list` with the block that it points to. A block is in one list at a time, and
-- nothing else points to it.
pub record Node : Type 0 where
  pub id : ℕ
  pub block : ConnRecycleBlock

-- The calls of the operating system whose order matters: bytes written, with how many the socket took
-- and `none` for -1, bytes received, changes of the event centre, the end of a socket, and
-- `notify_one` on a connection. The page about a failure and a piece of a reply, whose texts are left
-- out, stand for themselves.
pub data Call : Type 0 where
  wrote : ℕ → List ℕ → Option ℕ → Call
  received : ℕ → List ℕ → Call
  epoll_add epoll_mod epoll_del : ℕ → ℕ → Call
  shut closed : ℕ → Call
  woke : ℕ → Call
  told_failure : ℕ → LoginCode → Call
  http_reply : ℕ → List ℕ → Call
  asked_socket asked_time : Call

pub record System : Type 0 where
  -- `write` on a socket, of so many bytes
  pub write : List Call → ℕ → ℕ → Option ℕ
  -- `accept`, `none` for an error
  pub accept : List Call → Option ℕ
  -- `socket`, `none` for an error
  pub socket : List Call → Option ℕ
  -- whether `connect` does not fail, or fails with EINPROGRESS
  pub connect : List Call → ℕ → ℕ → Bool
  -- `gettimeofday`, in microseconds
  pub now : List Call → ℕ
  -- whether `epoll_ctl` succeeds
  pub epoll_ctl : List Call → Bool
  -- whether `errno` is EAGAIN where a method returns -1 by itself
  pub would_block : List Call → Bool
  -- `inet_addr`
  pub inet_addr : List ℕ → ℕ
  -- the 32 bytes where `token` of a request lies on the stack, before it is written
  pub stale_token : List Call → List ℕ
  -- `_Reactor_FD`
  pub reactor_fd : ℕ
  -- whether ACCURATE_TRAFFIC is defined
  pub accurate : Bool

-- The globals that `YMESet` and `YMEGet` reach.
pub record Env : Type 0 where
  pub g_phone : ℕ
  pub g_appid : ℕ
  pub g_tmsport : ℕ
  pub g_tmsip : List ℕ
  pub g_auth : List ℕ
  pub g_error : List ℕ
  pub g_aval_traffic : ℕ

pub record World : Type 0 where
  pub conns : ℕ → Option Connect
  pub next_conn : ℕ
  -- `_ConnMap`; an entry can hold a null pointer
  pub conn_map : ℕ → Option (Option ℕ)
  pub conn_count : ℤ
  pub time_window : ℕ
  pub accept_begin_time : ℕ
  pub g_rpt_traff_cost : ℕ
  pub env : Env
  pub expire_list : List Node
  pub next_node : ℕ
  pub recycle_list : List ConnRecycleBlock
  pub calls : List Call

-- enum Conn_type
abbrev pub t_tunnel : ℕ
t_tunnel = 0

abbrev pub t_proxy : ℕ
t_proxy = 4

-- enum Sock_stat
abbrev pub sta_disconnected : ℕ
sta_disconnected = 4

-- enum Yme_event
abbrev pub ym_ev_rd : ℕ
ym_ev_rd = 1

abbrev pub ym_ev_wr : ℕ
ym_ev_wr = 2

abbrev pub ym_ev_ex : ℕ
ym_ev_ex = 4

abbrev pub ym_ev_once : ℕ
ym_ev_once = 8
