-- ===== src/Recorder/Traffic.antt =====
-- TRAFFIC_REPORT in `NetRead` of trafficRecorder/trafficRecorder/TRNet.cpp: a report is deducted from
-- the stored balance, and a detail is stored. The handler is in two parts, cut where it reads the
-- balance: other handlers run between the commands.
use https_tunnel_proxy.Base.{
  ℕ, Bool, false, not, ◌&&◌, List, Option, none, some, ◌==◌, if◌then◌else◌,
}
use https_tunnel_proxy.Base.Int.{signed64, ltb_ℤ, pos, sub64}
use https_tunnel_proxy.Wire.Messages.{TrafficReport, TrafficReportRsp}
use https_tunnel_proxy.Recorder.Redis.{
  Redis, get_bal, set_bal, rpush_dtl, expire_auth, Reply, nil, text, status, error, integer,
}
use https_tunnel_proxy.Recorder.CString.{front, behind}

abbrev pub fail : ℕ
fail = 255

abbrev pub seconds : ℕ
seconds = 360000000

-- type == REDIS_REPLY_STRING, and the text.
unfoldable pub string_of : Option Reply → Option (List ℕ)
string_of none = none
string_of (some nil) = none
string_of (some (text s)) = some s
string_of (some (status s)) = none
string_of (some (error s)) = none
string_of (some (integer n)) = none

-- type == REDIS_REPLY_STATUS, and the text begins with "OK".
unfoldable pub is_ok : Option Reply → Bool
is_ok none = false
is_ok (some nil) = false
is_ok (some (text s)) = false
is_ok (some (status s)) = (front s == b'O') && (front (behind s) == b'K')
is_ok (some (error s)) = false
is_ok (some (integer n)) = false

-- type == REDIS_REPLY_INTEGER, and the number is at least 1.
unfoldable pub is_stored : Option Reply → Bool
is_stored none = false
is_stored (some nil) = false
is_stored (some (text s)) = false
is_stored (some (status s)) = false
is_stored (some (error s)) = false
is_stored (some (integer n)) = not (ltb_ℤ (signed64 n) (pos 1))

-- The answer, with its code.
unfoldable pub answer : TrafficReport → ℕ → TrafficReportRsp
answer req code = record {
  app = req.app;
  mobile = req.mobile;
  traffic = req.traffic;
  ip = req.ip;
  rsp_code = code;
}

module _ (redis : Redis) where
  open redis use {Db, exec_command, atoll}

  -- `expire auth`, whose reply is not looked at.
  unfoldable pub set_expire : TrafficReport → Db → TrafficReportRsp × Db
  set_expire req db = (answer req 0, (exec_command db (expire_auth req.mobile req.app seconds)).1)

  unfoldable pub store_detail : TrafficReport → Db → TrafficReportRsp × Db
  store_detail req db =
      let r3 =
        exec_command db (rpush_dtl req.mobile req.app req.host req.traffic req.btime req.etime) in
      if not (is_stored r3.0) then (answer req fail, r3.1) else set_expire req r3.1

  -- From the balance that was read on.
  unfoldable pub deduct : TrafficReport → List ℕ → Db → TrafficReportRsp × Db
  deduct req str db =
      let r2 = exec_command db (set_bal req.mobile req.app (sub64 (atoll str) req.traffic)) in
      if not (is_ok r2.0) then (answer req fail, r2.1) else store_detail req r2.1

  -- Reads the balance.
  unfoldable pub fetch : TrafficReport → Db → Option (List ℕ) × Db
  fetch req db = let r = exec_command db (get_bal req.mobile req.app) in (string_of r.0, r.1)

  unfoldable pub resume : TrafficReport → Option (List ℕ) × Db → TrafficReportRsp × Db
  resume req (none, db) = (answer req fail, db)
  resume req (some str, db) = deduct req str db

  -- The handler, when no other runs meanwhile.
  unfoldable pub traffic_report : TrafficReport → Db → TrafficReportRsp × Db
  traffic_report req db = resume req (fetch req db)
