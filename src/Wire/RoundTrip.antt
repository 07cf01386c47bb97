-- ===== src/Wire/RoundTrip.antt =====
-- Encoding followed by decoding, for the structs of tms/tms/TMSMessage.h.
use https_tunnel_proxy.Base.{ℕ, ◌-◌, ◌^◌, ◌<◌, ◌≡◌, arith, List, append-nil, length, take, take_all}
use https_tunnel_proxy.Wire.Bytes.{le, field, from_le-le}
use https_tunnel_proxy.Wire.Messages.{
  LoginRsp, encode_login_rsp, decode_login_rsp, SynUserTuple, encode_syn_user_tuple,
  decode_syn_user_tuple, ReadTokenReq, encode_read_token_req, decode_read_token_req, ReadTokenRsp,
  encode_read_token_rsp, decode_read_token_rsp, TrafficReport, encode_traffic_report,
  decode_traffic_report, TrafficReportRsp, encode_traffic_report_rsp, decode_traffic_report_rsp,
  pad,
}

-- A full array field is stored as it is.
pad_full : (n : ℕ) (bs : List ℕ) → length bs ≡ n → take n (pad n bs) ≡ bs
pad_full n bs h =
    rw (take_all bs n (omega arith), h)
      (let e : n - n ≡ 0 = omega arith in rw e (rw append-nil (take_all bs n (omega arith))))

pub record LoginRspFits (r : LoginRsp) : Type 0 where
  pub rsp_code : r.rsp_code < 256 ^ 2
  pub avalable_traffic : r.avalable_traffic < 256 ^ 8
  pub forward_id : r.forward_id < 256 ^ 8

-- A login answer whose fields fit their widths is decoded as it was encoded.
pub decode-encode_login_rsp :
    (r : LoginRsp) → LoginRspFits r → decode_login_rsp (encode_login_rsp r) ≡ r
unfolding encode_login_rsp decode_login_rsp field le
decode-encode_login_rsp r h = λ i. record {
  rsp_code = from_le-le 2 r.rsp_code h.rsp_code i;
  avalable_traffic = from_le-le 8 r.avalable_traffic h.avalable_traffic i;
  forward_id = from_le-le 8 r.forward_id h.forward_id i;
}

pub record SynUserTupleFits (r : SynUserTuple) : Type 0 where
  pub app : r.app < 256 ^ 8
  pub mobile : r.mobile < 256 ^ 8
  pub src_ip_be : r.src_ip_be < 256 ^ 4
  pub src_port_be : r.src_port_be < 256 ^ 2

-- The tuple that the proxy server sends to the traffic meter at a login is decoded as it was
-- encoded, if its fields fit their widths.
pub decode-encode_syn_user_tuple :
    (r : SynUserTuple) → SynUserTupleFits r → decode_syn_user_tuple (encode_syn_user_tuple r) ≡ r
unfolding encode_syn_user_tuple decode_syn_user_tuple field le
decode-encode_syn_user_tuple r h = λ i. record {
  app = from_le-le 8 r.app h.app i;
  mobile = from_le-le 8 r.mobile h.mobile i;
  src_ip_be = from_le-le 4 r.src_ip_be h.src_ip_be i;
  src_port_be = from_le-le 2 r.src_port_be h.src_port_be i;
}

pub record ReadTokenReqFits (r : ReadTokenReq) : Type 0 where
  pub cid : r.cid < 256 ^ 8
  pub app : r.app < 256 ^ 8
  pub mobile : r.mobile < 256 ^ 8
  pub token : length r.token ≡ 32

-- The token request from the proxy server to the recorder is decoded as it was encoded, if its
-- fields fit their widths and the token fills its array.
pub decode-encode_read_token_req :
    (r : ReadTokenReq) → ReadTokenReqFits r → decode_read_token_req (encode_read_token_req r) ≡ r
unfolding encode_read_token_req decode_read_token_req field le
decode-encode_read_token_req r h = λ i. record {
  cid = from_le-le 8 r.cid h.cid i;
  app = from_le-le 8 r.app h.app i;
  mobile = from_le-le 8 r.mobile h.mobile i;
  token = pad_full 32 r.token h.token i;
}

pub record ReadTokenRspFits (r : ReadTokenRsp) : Type 0 where
  pub rsp_code : r.rsp_code < 256 ^ 2
  pub cid : r.cid < 256 ^ 8
  pub app : r.app < 256 ^ 8
  pub mobile : r.mobile < 256 ^ 8
  pub balance : r.balance < 256 ^ 8
  pub token : length r.token ≡ 32

-- The recorder's answer to a token request is decoded as it was encoded, if its fields fit their
-- widths and the token fills its array.
pub decode-encode_read_token_rsp :
    (r : ReadTokenRsp) → ReadTokenRspFits r → decode_read_token_rsp (encode_read_token_rsp r) ≡ r
unfolding encode_read_token_rsp decode_read_token_rsp field le
decode-encode_read_token_rsp r h = λ i. record {
  rsp_code = from_le-le 2 r.rsp_code h.rsp_code i;
  cid = from_le-le 8 r.cid h.cid i;
  app = from_le-le 8 r.app h.app i;
  mobile = from_le-le 8 r.mobile h.mobile i;
  balance = from_le-le 8 r.balance h.balance i;
  token = pad_full 32 r.token h.token i;
}

pub record TrafficReportFits (r : TrafficReport) : Type 0 where
  pub app : r.app < 256 ^ 8
  pub mobile : r.mobile < 256 ^ 8
  pub traffic : r.traffic < 256 ^ 8
  pub bsec : r.btime.tv_sec < 256 ^ 8
  pub busec : r.btime.tv_usec < 256 ^ 8
  pub esec : r.etime.tv_sec < 256 ^ 8
  pub eusec : r.etime.tv_usec < 256 ^ 8
  pub ip : r.ip < 256 ^ 4
  pub hlen : r.hlen < 256 ^ 1
  pub host : length r.host ≡ 256

-- A traffic report is decoded as it was encoded, if its fields fit their widths and the host fills
-- its array.
pub decode-encode_traffic_report :
    (r : TrafficReport) → TrafficReportFits r → decode_traffic_report (encode_traffic_report r) ≡ r
unfolding encode_traffic_report decode_traffic_report field le
decode-encode_traffic_report r h = λ i. record {
  app = from_le-le 8 r.app h.app i;
  mobile = from_le-le 8 r.mobile h.mobile i;
  traffic = from_le-le 8 r.traffic h.traffic i;
  btime = record {
    tv_sec = from_le-le 8 r.btime.tv_sec h.bsec i;
    tv_usec = from_le-le 8 r.btime.tv_usec h.busec i;
  };
  etime = record {
    tv_sec = from_le-le 8 r.etime.tv_sec h.esec i;
    tv_usec = from_le-le 8 r.etime.tv_usec h.eusec i;
  };
  ip = from_le-le 4 r.ip h.ip i;
  hlen = from_le-le 1 r.hlen h.hlen i;
  host = pad_full 256 r.host h.host i;
}

pub record TrafficReportRspFits (r : TrafficReportRsp) : Type 0 where
  pub app : r.app < 256 ^ 8
  pub mobile : r.mobile < 256 ^ 8
  pub traffic : r.traffic < 256 ^ 8
  pub ip : r.ip < 256 ^ 4
  pub rsp_code : r.rsp_code < 256 ^ 1

-- The recorder's answer to a traffic report is decoded as it was encoded, if its fields fit their
-- widths.
pub decode-encode_traffic_report_rsp :
    (r : TrafficReportRsp)
    → TrafficReportRspFits r
    → decode_traffic_report_rsp (encode_traffic_report_rsp r) ≡ r
unfolding encode_traffic_report_rsp decode_traffic_report_rsp field le
decode-encode_traffic_report_rsp r h = λ i. record {
  app = from_le-le 8 r.app h.app i;
  mobile = from_le-le 8 r.mobile h.mobile i;
  traffic = from_le-le 8 r.traffic h.traffic i;
  ip = from_le-le 4 r.ip h.ip i;
  rsp_code = from_le-le 1 r.rsp_code h.rsp_code i;
}
