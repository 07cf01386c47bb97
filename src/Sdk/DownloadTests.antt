-- ===== src/Sdk/DownloadTests.antt =====
-- A download of the client library on concrete input.
use https_tunnel_proxy.Base.{
  ℕ, ◌*◌, ◌≤◌, ◌≡◌, refl, min, true, false, List, [], ◌∷◌, Option, none, some, arith, replicate,
  length, length-replicate, Returns, ◌==◌, if◌then◌else◌,
}
use https_tunnel_proxy.Base.State.{◌>>◌}
use https_tunnel_proxy.Base.Int.{pos}
use https_tunnel_proxy.Wire.RespCode
use https_tunnel_proxy.Wire.Messages.{LoginRsp, encode_login_rsp}
use https_tunnel_proxy.Wire.Bytes.{header, header_size}
use https_tunnel_proxy.Wire.RoundTrip.{LoginRspFits}
use https_tunnel_proxy.Tms.World.{s_header, s_forward, sta_online}
use https_tunnel_proxy.Sdk.Login.{rt_data}
use https_tunnel_proxy.Sdk.World.{
  Connect, ConnRecycleBlock, Env, Call, System, World, buff_size, t_tunnel, t_proxy, at, unset,
}
use https_tunnel_proxy.Sdk.Session.Opens.{IsPair, IsOpen}
use https_tunnel_proxy.Sdk.Session.Arrives.{IsWaiting, stream_recv_event-IsOpen}
use https_tunnel_proxy.Sdk.Stream.{stream_recv_event}
use https_tunnel_proxy.Sdk.Recycler.Scan.{crb_scan}
use https_tunnel_proxy.Sdk.Stream.Relay.{Ends, IsTunnel, IsRelaying, sent, got}
use https_tunnel_proxy.Sdk.Stream.Relay.Run.{Event, arrives, writable, Moved, run, run-Moved}
use https_tunnel_proxy.Sdk.Stream.Relay.Watched.{IsWatched, IsEnded, run-IsEnded}
use https_tunnel_proxy.Sdk.MainLoop.{on_report}
use https_tunnel_proxy.Sdk.MainLoop.Crash.{closing, writing, IsRemoved, EntersNull, on_report_twice}

abbrev zero_byte : ℕ
zero_byte = 0

-- A socket takes two bytes at a time.
abbrev pub sys : System
sys = record {
  write = λ _ _ n. some (min n 2);
  accept = λ _. some 9;
  socket = λ _. some 5;
  connect = λ _ _ _. true;
  now = λ _. 100 * 1000000;
  epoll_ctl = λ _. true;
  would_block = λ _. true;
  inet_addr = λ _. 0;
  stale_token = λ _. replicate 32 0;
  reactor_fd = 3;
  accurate = false;
}

abbrev tunnel : Connect
tunnel = record {
  sock_fd = 5;
  status = sta_online;
  type = t_tunnel;
  verified = 1;
  http_version = 0;
  peer = some 1;
  http_transmit_len = 0;
  aval_traffic = 0;
  uid = 0;
  mobile = 0;
  auth = [];
  login_code = rt_data;
  cstate = s_forward;
  h_len = 0;
  stillneedtoread = buff_size;
  host = [];
  web_port = 80;
  r_offset = 0;
  r_data_len = 0;
  r_buff = replicate buff_size 0;
  crb_it = unset;
}

abbrev pub program : Connect
program = record tunnel { sock_fd = 7; type = t_proxy; peer = some 0; crb_it = at 0 }

abbrev pub block : ConnRecycleBlock
block = record { tv_sec = 20; fd = 7; traffic = 0; conn = some 1 }

abbrev conns : ℕ → Option Connect
conns p = if p == 0 then some tunnel else if p == 1 then some program else none

abbrev conn_map : ℕ → Option (Option ℕ)
conn_map fd = if fd == 5 then some (some 0) else if fd == 7 then some (some 1) else none

abbrev pub env : Env
env = record {
  g_phone = 1;
  g_appid = 2;
  g_tmsport = 1080;
  g_tmsip = [];
  g_auth = [];
  g_error = [];
  g_aval_traffic = 0;
}

abbrev pub world : World
world = record {
  conns = conns;
  next_conn = 2;
  conn_map = conn_map;
  conn_count = pos 1;
  time_window = 0;
  accept_begin_time = 0;
  g_rpt_traff_cost = 0;
  env = env;
  expire_list = record { id = 0; block = block } ∷ [];
  next_node = 1;
  recycle_list = [];
  calls = [];
}

abbrev ends : Ends
ends = record {
  tunnel = 0;
  tunnel_fd = 5;
  proxy = 1;
  proxy_fd = 7;
  program = program;
  nodes = world.expire_list;
}

tunnel-IsTunnel : IsTunnel ends tunnel
tunnel-IsTunnel = record {
  forwards = refl;
  kind = omega arith;
  pair = refl;
  fd = refl;
  size = length-replicate buff_size zero_byte;
  keeps = λ h. absurd (omega (arith, h));
  starts = λ _. refl;
}

world-IsRelaying : IsRelaying ends [] [] world
unfolding sent got
world-IsRelaying = record {
  apart = omega arith;
  entry = refl;
  passage = refl;
  nodes = refl;
  arrived = refl;
  local = record { pair = refl; fd = refl; type = refl; same = refl };
  remote = (tunnel-IsTunnel, refl);
}

block-IsWatched : IsWatched ends 0 block
block-IsWatched = record {
  nodes = refl;
  node = refl;
  fd = refl;
  conn = refl;
  traffic = refl;
  signed = omega arith;
}

takes_part : (cs : List Call) (fd n m : ℕ) → sys.write cs fd n ≡ some m → m ≤ n
takes_part cs fd n m e = ground arith

abbrev events : List Event
events =
    arrives ((1 ∷ 2 ∷ 3 ∷ 4 ∷ 5 ∷ []) ∷ []) ∷ writable ∷ writable ∷ arrives ((6 ∷ []) ∷ []) ∷ []

run-Moved_example : Returns (λ q. Moved ends [] [] q.1) (run sys ends events world)
run-Moved_example =
    run-Moved sys takes_part ends [] [] events world
      (((omega arith, omega arith), tt), (tt, (tt, (((omega arith, omega arith), tt), tt))))
      world-IsRelaying

run-IsEnded_example : Returns (λ q. IsEnded ends q.1) ((run sys ends events >> crb_scan sys) world)
run-IsEnded_example =
    run-IsEnded sys takes_part ends [] [] 0 block events world (λ cs. omega arith) block-IsWatched
      (((omega arith, omega arith), tt), (tt, (tt, (((omega arith, omega arith), tt), tt))))
      world-IsRelaying

on_report_twice_example :
    Returns
      (λ q. IsRemoved ends q.1 × EntersNull sys 7 q.1 × (on_report sys 4 (writing ends) q.1 ≡ none))
      (on_report sys 4 (closing ends) world)
on_report_twice_example =
    on_report_twice sys ends [] [] 4 0 block world (omega arith) (omega arith) block-IsWatched
      world-IsRelaying

abbrev login : LoginRsp
login = record { rsp_code = RespCode.ready; avalable_traffic = 1000; forward_id = 17 }

-- The tunnel waits for a header.
abbrev world_waiting : World
world_waiting = record world {
  conns = λ p.
      if p == 0
      then some (record tunnel { cstate = s_header; stillneedtoread = header_size })
      else conns p;
}

world_waiting-IsPair : IsPair ends IsWaiting world_waiting
world_waiting-IsPair = record {
  apart = omega arith;
  entry = refl;
  passage = refl;
  tunnel = (
    omega arith,
    refl,
    refl,
    length-replicate buff_size zero_byte,
    omega arith,
    (refl, refl, refl),
  );
  proxy = (refl, refl, refl, length-replicate buff_size zero_byte, omega arith);
}

login_fits : LoginRspFits login
login_fits = record {
  rsp_code = omega arith;
  avalable_traffic = omega arith;
  forward_id = omega arith;
}

stream_recv_event-IsOpen_example :
    Returns
      (λ q. IsOpen sys ends q.1)
      (stream_recv_event sys 0
        (header (length (encode_login_rsp login)) ∷ encode_login_rsp login ∷ [])
        world_waiting)
stream_recv_event-IsOpen_example =
    stream_recv_event-IsOpen sys ends login world_waiting refl login_fits world_waiting-IsPair
