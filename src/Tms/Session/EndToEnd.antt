-- ===== src/Tms/Session/EndToEnd.antt =====
-- A login from end to end: what the server tells the client, how the client answers it, and what the
-- server does with the answer.
use https_tunnel_proxy.Base.{
  ℕ, ◌%◌, ◌^◌, ◌<◌, ◌≡◌, ◌≢◌, inl, inr, refl, ap, sym, ◌∙◌, true, Option, none, some, List, [], ◌∷◌,
  arith, Returns, Returns-map, Option-cases,
}
use https_tunnel_proxy.Wire.RespCode
use https_tunnel_proxy.Wire.Messages.{LoginRsp, ReadTokenRsp}
use https_tunnel_proxy.Tms.World.{World, System, s_forward}
use https_tunnel_proxy.Tms.World.Action.{◌>>◌}
use https_tunnel_proxy.Tms.Session.{client_fd, on_begin_transmit, strcmp_eq, on_read_token_rsp}
use https_tunnel_proxy.Tms.Events.{establish}
use https_tunnel_proxy.Tms.Session.Refused.{refusal, on_read_token_rsp-IsGone}
use https_tunnel_proxy.Tms.Removal.Ends.{IsEntered, IsGone}
use https_tunnel_proxy.Sdk.Login.{
  LoginCode, login_code_of, ack_user_fail, Client, Effect, start, start_proxy, on_login_rsp,
}
use https_tunnel_proxy.Tms.Session.Stream.{Place, Stage, IsStream, IsTold, told, next_id}
use https_tunnel_proxy.Tms.Session.Complete.{
  IsReady, final_stage, mode, login_in_any_order, on_begin_transmit-mode,
}

-- The id of the BEGIN_TRANSMIT that a client sends, if it sends one first.
abbrev pub first_id : List Effect → Option ℕ
first_id [] = none
first_id (Effect.begin_transmit id ∷ es) = some id
first_id (e ∷ es) = none

-- The client answers the last message that it was told with BEGIN_TRANSMIT and forwards, and the server
-- handles that and forwards.
abbrev pub IsForwarding : Place → Client → World → Type 0
IsForwarding k c w =
    Returns
      (λ r.
        ((on_login_rsp r c).1.cstate ≡ s_forward)
        × ((on_login_rsp r c).1.verified ≡ 1)
        × Returns (λ id. Returns (λ q. mode k q.1 ≡ s_forward) (on_begin_transmit k.tunnel id w))
            (first_id (on_login_rsp r c).0))
      (told k.fd w.calls)

on_login_rsp-ready :
    (r : LoginRsp) (c : Client)
    → r.rsp_code ≡ RespCode.ready
    → ((on_login_rsp r c).1.cstate ≡ s_forward)
      × ((on_login_rsp r c).1.verified ≡ 1)
      × (first_id (on_login_rsp r c).0 ≡ some (r.forward_id % 2 ^ 32))
unfolding on_login_rsp start start_proxy
on_login_rsp-ready r c e = ground arith

ready-IsForwarding :
    (sys : System) (k : Place) (g : Stage) (c : Client) (w : World)
    → next_id g.aval_forward_id < 2 ^ 32
    → IsStream k (final_stage g) w
    → IsTold k.fd RespCode.ready (next_id g.aval_forward_id) w
    → IsForwarding k c w
ready-IsForwarding sys k g c w l h t = elim (Option-cases (told k.fd w.calls)) [
  | inl e ↦ ground arith
  | inr (r, e) ↦
      let told_ready : (r.rsp_code ≡ RespCode.ready) × (r.forward_id ≡ next_id g.aval_forward_id) =
        ground arith in
      let (a, b, f) = on_login_rsp-ready r c told_ready.0 in
      let id : r.forward_id % 2 ^ 32 ≡ next_id g.aval_forward_id = ground arith in
      rw e (a, b, rw f (rw id (on_begin_transmit-mode k (final_stage g) w h l)))
]

-- A login works from end to end: once the recorder has accepted a client's token and its web server
-- has been reached, in either order, the client answers the last message that it was told by
-- BEGIN_TRANSMIT and forwards, and the server, given that answer, forwards too. Conditions: the
-- recorder's answer is for this client and carries its token, and the next forward id is below 2 ^ 32.
pub forwards_in_any_order :
    (sys : System) (k : Place) (g : Stage) (r : ReadTokenRsp) (c : Client) (w : World)
    → client_fd r ≡ k.fd
    → r.rsp_code ≡ 0
    → strcmp_eq k.token r.token ≡ true
    → IsStream k g w
    → next_id g.aval_forward_id < 2 ^ 32
    → Returns
        (λ q. IsForwarding k c q.1)
        ((on_read_token_rsp sys r >> establish sys k.agent_fd k.agent) w)
      × Returns
          (λ q. IsForwarding k c q.1)
          ((establish sys k.agent_fd k.agent >> on_read_token_rsp sys r) w)
forwards_in_any_order sys k g r c w e0 e1 e2 h l =
    let (a, b) = login_in_any_order sys k g r w e0 e1 e2 h in
    (
      Returns-map (IsReady k g) _ ((on_read_token_rsp sys r >> establish sys k.agent_fd k.agent) w)
          (λ q d. ready-IsForwarding sys k g c q.1 l d.0 d.1) a,
      Returns-map (IsReady k g) _ ((establish sys k.agent_fd k.agent >> on_read_token_rsp sys r) w)
          (λ q d. ready-IsForwarding sys k g c q.1 l d.0 d.1) b,
    )

-- A client that is refused for a reason that it knows.
abbrev pub IsInformed : LoginCode → Client → LoginRsp → Type 0
IsInformed code c r =
    ((on_login_rsp r c).1.login_code ≡ code)
    × ((on_login_rsp r c).1.verified ≡ c.verified)
    × ((on_login_rsp r c).0 ≡ ack_user_fail code c)

-- What the recorder can refuse a token for.
pub data Refusal : Type 0 where
  unknown_user wrong_token no_money unknown_host exception : Refusal

-- The code that says so in an answer.
abbrev pub code_for : Refusal → ℕ
code_for unknown_user = RespCode.user_not_exist
code_for wrong_token = RespCode.incorrect_token
code_for no_money = RespCode.no_balance
code_for unknown_host = RespCode.host_not_exist
code_for exception = RespCode.fail

-- The login code of the client that means it.
abbrev pub reason_for : Refusal → LoginCode
reason_for unknown_user = LoginCode.rt_user_not_exist
reason_for wrong_token = LoginCode.rt_incorrect_token
reason_for no_money = LoginCode.rt_no_balance
reason_for unknown_host = LoginCode.rt_host_not_exist
reason_for exception = LoginCode.rt_exception

login_code_of-code_for : (f : Refusal) → login_code_of (code_for f) ≡ some (reason_for f)
unfolding login_code_of
login_code_of-code_for unknown_user = refl
login_code_of-code_for wrong_token = refl
login_code_of-code_for no_money = refl
login_code_of-code_for unknown_host = refl
login_code_of-code_for exception = refl

code_for-not_ready : (f : Refusal) → code_for f ≢ 0
code_for-not_ready unknown_user = omega arith
code_for-not_ready wrong_token = omega arith
code_for-not_ready no_money = omega arith
code_for-not_ready unknown_host = omega arith
code_for-not_ready exception = omega arith

on_login_rsp-IsInformed :
    (r : LoginRsp) (c : Client) (f : Refusal)
    → r.rsp_code ≡ code_for f
    → IsInformed (reason_for f) c r
unfolding on_login_rsp ack_user_fail
on_login_rsp-IsInformed r c f e =
    let known : login_code_of r.rsp_code ≡ some (reason_for f) =
      ap login_code_of e ∙ login_code_of-code_for f in
    let bad : r.rsp_code ≢ 0 = λ z. code_for-not_ready f (sym e ∙ z) in ground (arith, known, bad)

-- A refusal works from end to end: if the recorder refuses a client's token because the user or the
-- host does not exist, the token is wrong, there is no balance, or of an exception, nothing is left of
-- the client's stream on the server, and the last LOGIN_RSP that the server gave to `send` for the
-- client makes it set the login code of that same reason, answer its user as `AckUserFail` does for
-- it, and leave as it was whether it counts itself as verified. Conditions: the answer is for this
-- client, both its connections are entered under descriptors below 2 ^ 63, and its host has at most
-- 256 bytes.
pub refused_to_the_end :
    (sys : System) (k : Place) (g : Stage) (r : ReadTokenRsp) (c : Client) (f : Refusal) (w : World)
    → client_fd r ≡ k.fd
    → r.rsp_code ≡ code_for f
    → IsEntered k g w
    → Returns
        (λ q.
          IsGone k w.scm.scb_free_list (some (refusal r)) q.1
          × Returns (IsInformed (reason_for f) c) (told k.fd q.1.calls))
        (on_read_token_rsp sys r w)
refused_to_the_end sys k g r c f w e0 e h =
    let bad : r.rsp_code ≢ 0 = λ z. code_for-not_ready f (sym e ∙ z) in
    Returns-map (λ q. IsGone k w.scm.scb_free_list (some (refusal r)) q.1) _
      (on_read_token_rsp sys r w) (λ q d. (d, rw d.6 (on_login_rsp-IsInformed (refusal r) c f e)))
      (on_read_token_rsp-IsGone sys k g r w e0 (inl bad) h)
