-- ===== src/Wire/Messages.antt =====
-- The structs of tms/tms/TMSMessage.h that the programs exchange, with the bytes of their packed
-- layout. A signed field is its bit pattern.
use https_tunnel_proxy.Base.{ℕ, ◌-◌, List, ◌++◌, length, take, drop, replicate}
use https_tunnel_proxy.Wire.Bytes.{le, field}
use https_tunnel_proxy.Wire.MessageEnum

pub record Timeval : Type 0 where
  pub tv_sec : ℕ
  pub tv_usec : ℕ

pub record LoginRsp : Type 0 where
  pub rsp_code : ℕ
  pub avalable_traffic : ℕ
  pub forward_id : ℕ

pub record ReadTokenReq : Type 0 where
  pub cid : ℕ
  pub app : ℕ
  pub mobile : ℕ
  pub token : List ℕ

pub record ReadTokenRsp : Type 0 where
  pub rsp_code : ℕ
  pub cid : ℕ
  pub app : ℕ
  pub mobile : ℕ
  pub balance : ℕ
  pub token : List ℕ

pub record SynUserTuple : Type 0 where
  pub app : ℕ
  pub mobile : ℕ
  pub src_ip_be : ℕ
  pub src_port_be : ℕ

pub record TrafficReport : Type 0 where
  pub app : ℕ
  pub mobile : ℕ
  pub traffic : ℕ
  pub btime : Timeval
  pub etime : Timeval
  pub ip : ℕ
  pub hlen : ℕ
  pub host : List ℕ

pub record TrafficReportRsp : Type 0 where
  pub app : ℕ
  pub mobile : ℕ
  pub traffic : ℕ
  pub ip : ℕ
  pub rsp_code : ℕ

-- A byte array field of `n` bytes: the given bytes, then zeros.
abbrev pub pad : ℕ → List ℕ → List ℕ
pad n bs = take n bs ++ replicate (n - length bs) 0

unfoldable pub encode_login_rsp : LoginRsp → List ℕ
encode_login_rsp r =
    le 2 MessageEnum.login_rsp
    ++ (le 2 r.rsp_code ++ (le 8 r.avalable_traffic ++ le 8 r.forward_id))

unfoldable pub decode_login_rsp : List ℕ → LoginRsp
decode_login_rsp bs = record {
  rsp_code = field bs 2 2;
  avalable_traffic = field bs 4 8;
  forward_id = field bs 12 8;
}

unfoldable pub encode_connect_host_rsp : ℕ → List ℕ
encode_connect_host_rsp code = le 2 MessageEnum.connect_host_rsp ++ (le 2 code ++ le 4 0)

unfoldable pub encode_read_token_req : ReadTokenReq → List ℕ
encode_read_token_req r =
    le 2 MessageEnum.read_token_req
    ++ (le 8 r.cid ++ (le 8 r.app ++ (le 8 r.mobile ++ pad 32 r.token)))

unfoldable pub decode_read_token_req : List ℕ → ReadTokenReq
decode_read_token_req bs = record {
  cid = field bs 2 8;
  app = field bs 10 8;
  mobile = field bs 18 8;
  token = take 32 (drop 26 bs);
}

unfoldable pub encode_read_token_rsp : ReadTokenRsp → List ℕ
encode_read_token_rsp r =
    le 2 MessageEnum.read_token_rsp
    ++ (le 2 r.rsp_code
        ++ (le 8 r.cid ++ (le 8 r.app ++ (le 8 r.mobile ++ (le 8 r.balance ++ pad 32 r.token)))))

unfoldable pub decode_read_token_rsp : List ℕ → ReadTokenRsp
decode_read_token_rsp bs = record {
  rsp_code = field bs 2 2;
  cid = field bs 4 8;
  app = field bs 12 8;
  mobile = field bs 20 8;
  balance = field bs 28 8;
  token = take 32 (drop 36 bs);
}

unfoldable pub encode_syn_user_tuple : SynUserTuple → List ℕ
encode_syn_user_tuple r =
    le 2 MessageEnum.syn_user_tuple
    ++ (le 8 r.app ++ (le 8 r.mobile ++ (le 4 r.src_ip_be ++ le 2 r.src_port_be)))

unfoldable pub decode_syn_user_tuple : List ℕ → SynUserTuple
decode_syn_user_tuple bs = record {
  app = field bs 2 8;
  mobile = field bs 10 8;
  src_ip_be = field bs 18 4;
  src_port_be = field bs 22 2;
}

unfoldable pub encode_traffic_report : TrafficReport → List ℕ
encode_traffic_report r =
    le 2 MessageEnum.traffic_report
    ++ (le 8 r.app
        ++ (le 8 r.mobile
            ++ (le 8 r.traffic
                ++ (le 8 r.btime.tv_sec
                    ++ (le 8 r.btime.tv_usec
                        ++ (le 8 r.etime.tv_sec
                            ++ (le 8 r.etime.tv_usec
                                ++ (le 4 r.ip ++ (le 1 r.hlen ++ pad 256 r.host)))))))))

unfoldable pub decode_traffic_report : List ℕ → TrafficReport
decode_traffic_report bs = record {
  app = field bs 2 8;
  mobile = field bs 10 8;
  traffic = field bs 18 8;
  btime = record { tv_sec = field bs 26 8; tv_usec = field bs 34 8 };
  etime = record { tv_sec = field bs 42 8; tv_usec = field bs 50 8 };
  ip = field bs 58 4;
  hlen = field bs 62 1;
  host = take 256 (drop 63 bs);
}

unfoldable pub encode_traffic_report_rsp : TrafficReportRsp → List ℕ
encode_traffic_report_rsp r =
    le 2 MessageEnum.traffic_report_rsp
    ++ (le 8 r.app ++ (le 8 r.mobile ++ (le 8 r.traffic ++ (le 4 r.ip ++ le 1 r.rsp_code))))

unfoldable pub decode_traffic_report_rsp : List ℕ → TrafficReportRsp
decode_traffic_report_rsp bs = record {
  app = field bs 2 8;
  mobile = field bs 10 8;
  traffic = field bs 18 8;
  ip = field bs 26 4;
  rsp_code = field bs 30 1;
}

-- The `msg_id` that every message begins with.
unfoldable pub msg_id : List ℕ → ℕ
msg_id bs = field bs 0 2
