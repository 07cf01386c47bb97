-- ===== src/Wire/RespCode.antt =====
-- The response codes: enum RespCode of tms/tms/TMSMessage.h.
use https_tunnel_proxy.Base.{ℕ}

abbrev pub succ : ℕ
succ = 0

abbrev pub ready : ℕ
ready = 0

abbrev pub prog : ℕ
prog = 1

abbrev pub user_not_exist : ℕ
user_not_exist = 2

abbrev pub no_balance : ℕ
no_balance = 3

abbrev pub paramet_err : ℕ
paramet_err = 4

abbrev pub token_verified : ℕ
token_verified = 5

abbrev pub incorrect_token : ℕ
incorrect_token = 6

abbrev pub agent_estasblished : ℕ
agent_estasblished = 7

abbrev pub agent_not_connected : ℕ
agent_not_connected = 8

abbrev pub host_not_exist : ℕ
host_not_exist = 9

abbrev pub fail : ℕ
fail = 0xffff
