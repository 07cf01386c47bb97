-- ===== src/Recorder/Token.antt =====
-- READ_TOKEN_REQ in `NetRead` of trafficRecorder/trafficRecorder/TRNet.cpp: a login is checked against
-- the token and the balance in Redis.
use https_tunnel_proxy.Base.{
  ℕ, ◌+◌, ◌≡◌, ◌≢◌, ◌↔◌, Bool, false, not, List, ◌∷◌, ◌++◌, Option, none, some, arith, length, take,
  drop, if◌then◌else◌, All, Bool-cases, inl, inr, Returns,
}
use https_tunnel_proxy.Base.Int.{signed64, ltb_ℤ, pos}
use https_tunnel_proxy.Wire.RespCode
use https_tunnel_proxy.Wire.Messages.{ReadTokenReq, ReadTokenRsp, decode_read_token_req}
use https_tunnel_proxy.Recorder.CString.{c_string, strlen, memcmp_eq, memcmp_eq_iff, max}
use https_tunnel_proxy.Recorder.Redis.{
  Redis, get_auth, get_bal, Reply, nil, text, status, error, integer,
}

-- The bytes of the request from its token on.
abbrev pub token_of : List ℕ → List ℕ
token_of buf = drop 26 buf

abbrev pub min_balance : ℕ
min_balance = 4000

-- `0 != memcmp(req->token, str, len)` does not hold.
abbrev pub token_matches : List ℕ → List ℕ → Bool
token_matches token s = memcmp_eq (max (length s) (strlen token)) token s

-- memcpy(rsp->token, str, len); rsp->token[len] = 0;
abbrev pub copy_token : List ℕ → List ℕ → List ℕ
copy_token s old = take 32 (s ++ 0 ∷ drop (length s + 1) old)

module _ (redis : Redis) where
  open redis use {Db, exec_command, atoll}

  -- The database after the request, and the answer; `none` is a read through a null pointer.
  pub record Answer : Type 0 where
    pub db : Db
    pub rsp : Option ReadTokenRsp

  abbrev answer_code : Db → ReadTokenRsp → ℕ → Answer
  answer_code db rsp code = record { db = db; rsp = some (record rsp { rsp_code = code }) }

  -- Behind the second command.
  unfoldable pub check_balance : ReadTokenRsp → Option Reply × Db → Answer
  check_balance rsp (none, db) = record { db = db; rsp = none }
  check_balance rsp (some nil, db) = answer_code db rsp RespCode.no_balance
  check_balance rsp (some (text s), db) =
      answer_code db (record rsp { balance = atoll s })
        (if ltb_ℤ (signed64 (atoll s)) (pos min_balance) then RespCode.no_balance else 0)
  check_balance rsp (some (status s), db) =
      answer_code db (record rsp { balance = atoll s })
        (if ltb_ℤ (signed64 (atoll s)) (pos min_balance) then RespCode.no_balance else 0)
  check_balance rsp (some (error s), db) =
      answer_code db (record rsp { balance = atoll s })
        (if ltb_ℤ (signed64 (atoll s)) (pos min_balance) then RespCode.no_balance else 0)
  check_balance rsp (some (integer n), db) = record { db = db; rsp = none }

  abbrev check_text : ReadTokenReq → List ℕ → ReadTokenRsp → Db → Option (List ℕ) → Answer
  check_text req token rsp db none = record { db = db; rsp = none }
  check_text req token rsp db (some s) =
      if not (token_matches token s)
      then answer_code db rsp RespCode.incorrect_token
      else check_balance (record rsp { token = copy_token s rsp.token })
          (exec_command db (get_bal req.mobile req.app))

  -- Behind the first command.
  unfoldable pub check_token : ReadTokenReq → List ℕ → ReadTokenRsp → Option Reply × Db → Answer
  unfolding check_balance
  check_token req token rsp (none, db) = record { db = db; rsp = none }
  check_token req token rsp (some nil, db) = answer_code db rsp RespCode.user_not_exist
  check_token req token rsp (some (text s), db) = check_text req token rsp db (some s)
  check_token req token rsp (some (status s), db) = check_text req token rsp db (some s)
  check_token req token rsp (some (error s), db) = check_text req token rsp db (some s)
  check_token req token rsp (some (integer n), db) = check_text req token rsp db none

  -- The request in the buffer; `stack` is what the answer's memory held before.
  unfoldable pub read_token : ReadTokenRsp → Db → List ℕ → Answer
  unfolding check_token
  read_token stack db buf =
      let req = decode_read_token_req buf in
      check_token req (token_of buf)
        (record stack { cid = req.cid; app = req.app; mobile = req.mobile })
        (exec_command db (get_auth req.mobile req.app))

  -- A request is accepted exactly if the token that it carries is the stored one and the stored
  -- balance is at least 4000; the answer names the connection, the user and, then, the balance. The
  -- server answers both commands with texts, and the stored token has no zero byte.
  pub read_token_accepts :
      (stack : ReadTokenRsp) (db : Db) (buf s b : List ℕ) (db₁ db₂ : Db)
      → All (λ c. c ≢ 0) s
      → exec_command db
          (get_auth (decode_read_token_req buf).mobile (decode_read_token_req buf).app)
        ≡ (some (text s), db₁)
      → exec_command db₁
          (get_bal (decode_read_token_req buf).mobile (decode_read_token_req buf).app)
        ≡ (some (text b), db₂)
      → Returns
          (λ r.
            ((r.rsp_code ≡ 0) ↔ (
              (c_string (token_of buf) ≡ s)
              × (ltb_ℤ (signed64 (atoll b)) (pos min_balance) ≡ false)))
            × (r.cid ≡ (decode_read_token_req buf).cid)
            × (r.mobile ≡ (decode_read_token_req buf).mobile)
            × (r.rsp_code ≡ 0 → r.balance ≡ atoll b))
          (read_token stack db buf).rsp
  unfolding read_token
  read_token_accepts stack db buf s b db₁ db₂ z e₁ e₂ =
      rw (e₁, check_token)
        (elim (Bool-cases (token_matches (token_of buf) s)) [
          | inl m ↦ rw (m, e₂, check_balance) (ground (arith, memcmp_eq_iff (token_of buf) s z))
          | inr m ↦ rw m (ground (arith, memcmp_eq_iff (token_of buf) s z))
        ])
