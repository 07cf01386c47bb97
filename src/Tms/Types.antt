-- ===== src/Tms/Types.antt =====
-- Users and stream control blocks: `User` of tms/tms/UserMgr.h and `SCB` of tms/tms/SCB.h. A pointer
-- is a number; 64-bit and 16-bit fields are numbers below their range, `balance` is a bit pattern.
use https_tunnel_proxy.Base.{ℕ, Option, none}
use https_tunnel_proxy.Wire.Messages.{Timeval}

pub record User : Type 0 where
  pub mobile : ℕ
  pub app : ℕ
  pub forward_id : ℕ
  pub traffic : ℕ
  pub balance : ℕ
  pub accu_start_time : Timeval
  pub status : ℕ
  pub reporting : ℕ
  pub con_report : ℕ

-- enum User_stat
abbrev pub u_validated : ℕ
u_validated = 1

pub record Scb : Type 0 where
  pub scbid : ℕ
  pub user : Option ℕ
  pub forward_id : ℕ
  pub agent_fd : ℕ
  pub tunn_fd : ℕ
  pub traffic : ℕ
  pub agent_conn : Option ℕ
  pub tunnel_conn : Option ℕ
  pub last_active_time : Timeval
  pub dest_port : ℕ
  pub status : ℕ
  pub recycled : ℕ
  pub waiting_dns : ℕ
  pub connected : ℕ

abbrev pub no_time : Timeval
no_time = record { tv_sec = 0; tv_usec = 0 }

-- `SCB(id)`
unfoldable pub make_scb : ℕ → Scb
make_scb id = record {
  scbid = id;
  user = none;
  forward_id = 0;
  agent_fd = 0;
  tunn_fd = 0;
  traffic = 0;
  agent_conn = none;
  tunnel_conn = none;
  last_active_time = no_time;
  dest_port = 80;
  status = 0;
  recycled = 0;
  waiting_dns = 0;
  connected = 0;
}

-- `SCB::Reset`, which leaves `waiting_dns` alone.
unfoldable pub reset_scb : Scb → Scb
reset_scb s = record s {
  scbid = 0;
  user = none;
  agent_fd = 0;
  tunn_fd = 0;
  agent_conn = none;
  tunnel_conn = none;
  last_active_time = no_time;
  status = 0;
  recycled = 0;
  forward_id = 0;
  traffic = 0;
  dest_port = 0;
  connected = 0;
}
