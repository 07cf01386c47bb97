-- ===== src/Recorder/Tests.antt =====
-- Runs of the recorder, trafficRecorder/trafficRecorder, on concrete input, with a server that holds
-- one user.
use https_tunnel_proxy.Recorder.Pool.{init_redis_pool}
use https_tunnel_proxy.Recorder.Pool.Shared.{IsShared, run, take_one, give, init_redis_pool-run}
use https_tunnel_proxy.Base.{
  ℕ, ◌≡◌, ◌↔◌, refl, sym, ap, inl, List, [], ◌∷◌, ◌++◌, Option, some, arith, Returns, false,
  replicate,
}
use https_tunnel_proxy.Base.Int.{sub64, signed64, ltb_ℤ, pos}
use https_tunnel_proxy.Wire.Bytes.{le, field, from_le}
use https_tunnel_proxy.Wire.Messages.{
  Timeval, ReadTokenRsp, encode_read_token_req, decode_read_token_req, TrafficReport,
}
use https_tunnel_proxy.Recorder.Redis.{
  Redis, Command, get_auth, get_bal, set_bal, rpush_dtl, expire_auth, Reply, text, status, integer,
}
use https_tunnel_proxy.Recorder.CString.{c_string, strlen, memcmp_eq}
use https_tunnel_proxy.Recorder.Token.{min_balance, token_of, read_token, read_token_accepts}
use https_tunnel_proxy.Recorder.Traffic.{
  string_of, is_ok, is_stored, answer, set_expire, store_detail, deduct, fetch, resume,
  traffic_report,
}
use https_tunnel_proxy.Recorder.Billing.{
  BalanceLaws, IsCharged, traffic_report-charges, traffic_report-loses_update,
}

abbrev stored_token : List ℕ
stored_token = b'a' ∷ b'b' ∷ []

-- The database is the user's balance, and a balance is printed as one digit.
abbrev exec_command : ℕ → Command → Option Reply × ℕ
exec_command db (get_auth m a) = (some (text stored_token), db)
exec_command db (get_bal m a) = (some (text (db ∷ [])), db)
exec_command db (set_bal m a v) = (some (status (b'O' ∷ b'K' ∷ [])), v)
exec_command db (rpush_dtl m a h t b e) = (some (integer 1), db)
exec_command db (expire_auth m a n) = (some (integer 1), db)

abbrev digit : List ℕ → ℕ
digit [] = 0
digit (c ∷ cs) = c

abbrev redis : Redis
redis = record { Db = ℕ; exec_command = exec_command; atoll = digit }

abbrev digit_of : Option Reply → ℕ
digit_of (some (text s)) = digit s
digit_of _ = 0

abbrev laws : BalanceLaws redis
laws = record {
  stored = λ db m a. db;
  get-keeps = λ db m a. refl;
  get-string = λ db m a s e. ap digit_of (sym e);
  set-ok = λ db m a v e. refl;
  set-either = λ db m a v. inl refl;
  rpush-keeps = λ db req. refl;
  expire-keeps = λ db m a n. refl;
}

abbrev time : Timeval
time = record { tv_sec = 1; tv_usec = 0 }

abbrev report : ℕ → TrafficReport
report n = record {
  app = 1;
  mobile = 7;
  traffic = n;
  btime = time;
  etime = time;
  ip = 5;
  hlen = 1;
  host = b'-' ∷ [];
}

traffic_report_run : (traffic_report redis (report 300) 5000).1 ≡ 4700
unfolding traffic_report fetch resume string_of deduct is_ok store_detail is_stored set_expire
    answer
traffic_report_run = refl

traffic_report-charges_example :
    IsCharged redis laws 5000 (report 300) (traffic_report redis (report 300) 5000)
traffic_report-charges_example = traffic_report-charges redis laws (report 300) 5000

traffic_report-loses_update_example :
    (resume redis
      (report 200)
      (some (5000 ∷ []), (resume redis (report 300) (some (5000 ∷ []), 5000)).1)).1
    ≡ sub64 5000 200
unfolding fetch resume string_of deduct is_ok store_detail is_stored set_expire answer
traffic_report-loses_update_example =
    traffic_report-loses_update redis laws (report 300) (report 200) 5000 (5000 ∷ []) (5000 ∷ [])
      refl refl refl refl refl

abbrev request : List ℕ
request =
    encode_read_token_req
      (record { cid = 9; app = 1; mobile = 7; token = stored_token ++ replicate 30 0 })

abbrev stack : ReadTokenRsp
stack = record { rsp_code = 0; cid = 0; app = 0; mobile = 0; balance = 0; token = replicate 32 1 }

read_token_run :
    (read_token redis stack 5000 request).rsp
    ≡ some (record stack {
      cid = 9;
      app = 1;
      mobile = 7;
      balance = 5000;
      token = stored_token ++ (0 ∷ replicate 29 1);
    })
unfolding read_token encode_read_token_req decode_read_token_req le field from_le memcmp_eq strlen
    c_string
read_token_run = refl

read_token_accepts_example :
    Returns
      (λ r.
        ((r.rsp_code ≡ 0) ↔ (
          (c_string (token_of request) ≡ stored_token)
          × (ltb_ℤ (signed64 5000) (pos min_balance) ≡ false)))
        × (r.cid ≡ (decode_read_token_req request).cid)
        × (r.mobile ≡ (decode_read_token_req request).mobile)
        × (r.rsp_code ≡ 0 → r.balance ≡ 5000))
      (read_token redis stack 5000 request).rsp
read_token_accepts_example =
    read_token_accepts redis stack 5000 request stored_token (5000 ∷ []) 5000 5000
      (omega arith, (omega arith, tt)) refl refl

init_redis_pool-run_example :
    Returns
      (λ p.
        Returns
          (IsShared 2)
          (run (record { pool = p; lent = [] }) (take_one ∷ take_one ∷ give 0 ∷ [])))
      (init_redis_pool (b'a' ∷ []) 2)
init_redis_pool-run_example =
    init_redis_pool-run (b'a' ∷ []) 2 (take_one ∷ take_one ∷ give 0 ∷ []) (ground arith)
      (ground arith)
