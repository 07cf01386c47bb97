-- ===== src/Tms/SessionData.antt =====
-- A client, its stream and the server's other connections, as test data.
use https_tunnel_proxy.Base.{
  ℕ, true, false, ◌&&◌, none, some, List, [], ◌∷◌, ◌==◌, if◌then◌else◌, replicate,
}
use https_tunnel_proxy.Wire.Messages.{Timeval, ReadTokenRsp}
use https_tunnel_proxy.Tms.Types.{User, Scb, u_validated, no_time}
use https_tunnel_proxy.Tms.ScbMgr.{update}
use https_tunnel_proxy.Tms.World.{
  World, Connect, System, set, s_header, s_forward, t_tunnel, t_agent, t_dns, t_center, t_dpi,
  sta_inprogress,
}
use https_tunnel_proxy.Tms.Session.Stream.{Place, Stage}
use https_tunnel_proxy.Tms.Login.{LoginReq}

abbrev pub moment : Timeval
moment = record { tv_sec = 5; tv_usec = 0 }

abbrev pub sys : System
sys = record {
  send = λ calls fd n. some n;
  accept = λ calls. some 5;
  socket = λ calls. some 12;
  connect = λ calls ip port. true;
  now = λ calls. moment;
  inet_addr = λ host. 16777343;
  getpeername = λ calls fd. some (1, 2);
  random = λ calls. 7;
  accurate = false;
}

abbrev pub zeros : List ℕ
zeros = replicate 32 0

abbrev pub conn : ℕ → ℕ → Connect
conn type fd = record {
  sock_fd = fd;
  status = 0;
  type = type;
  sdk_verified = 0;
  agent_status = 0;
  exit = 0;
  app = 0;
  mobile = 0;
  token = zeros;
  dest_port = 80;
  user = none;
  scb = none;
  curr_host = [];
  traffic_tmp = 0;
  begin_time = no_time;
  cstate = s_header;
  stillneedtoread = 6;
  offset = 0;
  datalen = 0;
}

abbrev pub tunnel : Connect
tunnel = record (conn t_tunnel 5) { user = some 0; scb = some 0; app = 1; mobile = 13 }

abbrev pub agent : Connect
agent = record (conn t_agent 6) {
  user = some 0;
  scb = some 0;
  status = sta_inprogress;
  cstate = s_forward;
}

abbrev pub user : User
user = record {
  mobile = 13;
  app = 1;
  forward_id = 0;
  traffic = 0;
  balance = 9000;
  accu_start_time = no_time;
  status = 0;
  reporting = 0;
  con_report = 0;
}

abbrev pub block : Scb
block = record {
  scbid = 1;
  user = some 0;
  forward_id = 0;
  agent_fd = 6;
  tunn_fd = 5;
  traffic = 100;
  agent_conn = some 1;
  tunnel_conn = some 0;
  last_active_time = moment;
  dest_port = 80;
  status = 0;
  recycled = 0;
  waiting_dns = 0;
  connected = 0;
}

-- Connections 0 to 4: a tunnel, its agent, the recorder's, the meter's and the name server's. The
-- tunnel and the block of the world are arguments.
abbrev pub world : Connect → Scb → World
world c s = record {
  conns =
      set (set (set (set (set (λ p. none) 0 c) 1 agent) 2 (conn t_center 3)) 3 (conn t_dpi 4)) 4
        (conn t_dns 7);
  next_conn = 5;
  conn_map = set (set (λ fd. none) 5 0) 6 1;
  center_pool = 2 ∷ [];
  dns_pool = 4 ∷ [];
  dpi_pool = 3 ∷ [];
  users = set (λ p. none) 0 user;
  next_user = 1;
  user_map = λ m a. if (m == 13) && (a == 1) then some 0 else none;
  scb_trees = λ u i. none;
  aval_forward_id = 1;
  scm = record {
    aval_pcb_id = 1;
    scb_free_list = [];
    heap = update (λ p. none) 0 s;
    next_addr = 1;
  };
  cache = λ host. none;
  waiting_scb = [];
  expiring_scb = [];
  calls = [];
  reports = [];
}

abbrev pub stream : World
stream = world tunnel block

abbrev pub place : Place
place = record {
  tunnel = 0;
  agent = 1;
  block = 0;
  user = 0;
  dpi = 3;
  fd = 5;
  agent_fd = 6;
  token = zeros;
}

abbrev pub start : Stage
start = record { status = 0; connected = 0; forward_id = 0; aval_forward_id = 1 }

abbrev pub rsp : ℕ → ReadTokenRsp
rsp code = record { rsp_code = code; cid = 5; app = 1; mobile = 13; balance = 8000; token = zeros }

-- The request of a user that the server does not know yet, for the host 1.1.1.1.
abbrev pub login : LoginReq
login = record {
  app = 2;
  mobile = 14;
  token = zeros;
  port = 443;
  host_len = 7;
  host = 49 ∷ 46 ∷ 49 ∷ 46 ∷ 49 ∷ 46 ∷ 49 ∷ 0 ∷ [];
}

abbrev pub fresh : World
fresh = world (conn t_tunnel 5) block

abbrev pub validated : World
validated = world (record tunnel { sdk_verified = 1 }) (record block { status = u_validated })
