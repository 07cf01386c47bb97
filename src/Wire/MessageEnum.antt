-- ===== src/Wire/MessageEnum.antt =====
-- The message numbers: enum MessageEnum of tms/tms/TMSMessage.h.
use https_tunnel_proxy.Base.{ℕ}

abbrev pub login_req : ℕ
login_req = 1

abbrev pub login_rsp : ℕ
login_rsp = 2

abbrev pub connect_host_req : ℕ
connect_host_req = 3

abbrev pub connect_host_rsp : ℕ
connect_host_rsp = 4

abbrev pub begin_transmit : ℕ
begin_transmit = 5

abbrev pub read_token_req : ℕ
read_token_req = 7

abbrev pub read_token_rsp : ℕ
read_token_rsp = 8

abbrev pub traffic_report : ℕ
traffic_report = 9

abbrev pub traffic_report_rsp : ℕ
traffic_report_rsp = 10

abbrev pub keep_alive_token : ℕ
keep_alive_token = 11

abbrev pub syn_user_tuple : ℕ
syn_user_tuple = 12
