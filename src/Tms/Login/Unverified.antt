-- ===== src/Tms/Login/Unverified.antt =====
-- A client between its login and the recorder's answer.
use https_tunnel_proxy.Base.{
  ℕ, ◌<◌, ◌≡◌, Bool, true, ◌||◌, some, List, arith, length, take, ◌==◌, Returns,
}
use https_tunnel_proxy.Tms.Login.Attach.{
  IsNew, IsUnverified, IsReachable, HasUser, connect_web_server-IsUnverified, ask_center-IsNew,
}
use https_tunnel_proxy.Recorder.CString.{strlen}
use https_tunnel_proxy.Tms.Accounting.{record_traffic}
use https_tunnel_proxy.Tms.World.{World, System, s_forward}
use https_tunnel_proxy.Tms.World.Action.{◌>>=◌, ◌>>◌, edit_conn, >>=-Returns}
use https_tunnel_proxy.Tms.Connection.{
  send, record_traffic_at, charge_tunnel, send_tms_msg, gettimeofday, connect_web_server,
  enter_user, retrieve_user,
}
use https_tunnel_proxy.Tms.Session.{on_begin_transmit}
use https_tunnel_proxy.Tms.Login.{
  warn, finish_login, LoginReq, ip_or_host, ntohl, store_token, host_of, take_request, ask_center,
  reach_host, on_login_req,
}

module _ (sys : System) (p : ℕ) where
  take_request-IsNew :
      (r : LoginReq) (w : World)
      → strlen r.token < 32
      → r.host_len < length r.host
      → IsNew p r w
      → Returns (λ q. IsNew p r q.1 × (q.0 ≡ take r.host_len r.host)) (take_request p r w)
  unfolding take_request store_token host_of
  take_request-IsNew r w t l h = ground arith

  retrieve_user-IsNew :
      (r : LoginReq) (w : World)
      → IsNew p r w
      → Returns
          (λ q. IsNew p r q.1 × Returns (λ x. Unit {0}) (q.1.users q.0))
          (retrieve_user sys r.mobile r.app w)
  unfolding retrieve_user gettimeofday enter_user
  retrieve_user-IsNew r w h = ground arith

  edit_user-HasUser :
      (r : LoginReq) (up : ℕ) (w : World)
      → IsNew p r w
      → Returns (λ x. Unit {0}) (w.users up)
      → Returns (λ q. HasUser p up q.1) (edit_conn p (λ c. record c { user = some up }) w)
  edit_user-HasUser r up w h u = ground arith

  reach_host-IsUnverified :
      (up : ℕ) (r : LoginReq) (host : List ℕ) (w : World)
      → IsReachable sys
      → ip_or_host 0 host ≡ true
      → HasUser p up w
      → Returns (λ q. IsUnverified p q.1 × (q.0 ≡ true)) (reach_host sys p up r host w)
  unfolding reach_host
  reach_host-IsUnverified up r host w reach e h =
      rw (e, ◌>>=◌)
        (>>=-Returns _ _ (connect_web_server sys up p (ntohl (sys.inet_addr host)) r.port) _ w
          (connect_web_server-IsUnverified sys p (ntohl (sys.inet_addr host)) r.port up w reach h)
          (λ a w1 h1. ground arith))

  warn-IsNew :
      (r : LoginReq) (bad : Bool) (w : World)
      → IsNew p r w
      → Returns (λ q. IsNew p r q.1) ((warn sys p bad) w)
  unfolding warn send_tms_msg send charge_tunnel record_traffic_at record_traffic
  warn-IsNew r bad w h = ground arith

  finish-IsUnverified :
      (goes_on : Bool) (w : World)
      → IsUnverified p w
      → Returns (λ q. IsUnverified p q.1) ((finish_login sys p goes_on) w)
  unfolding finish_login send_tms_msg send charge_tunnel record_traffic_at record_traffic
  finish-IsUnverified goes_on w h = ground arith

  -- A login on a new connection, for a host that is taken for an address.
  pub on_login_req-IsUnverified :
      (r : LoginReq) (w : World)
      → IsReachable sys
      → IsNew p r w
      → strlen r.token < 32
      → r.host_len < length r.host
      → ip_or_host 0 (take r.host_len r.host) ≡ true
      → Returns (λ q. IsUnverified p q.1) (on_login_req sys p r w)
  unfolding on_login_req
  on_login_req-IsUnverified r w reach h t l e =
      >>=-Returns _ _ (take_request p r) _ w (take_request-IsNew r w t l h) λ host w1 h1.
        >>=-Returns _ _ (warn sys p ((r.mobile == 0) || (length host == 0))) _ w1
          (warn-IsNew r ((r.mobile == 0) || (length host == 0)) w1 h1.0)
          λ x w2 h2.
            >>=-Returns _ _ (ask_center sys p r) _ w2 (ask_center-IsNew sys p r w2 h2) λ y w3 h3.
              >>=-Returns _ _ (retrieve_user sys r.mobile r.app) _ w3 (retrieve_user-IsNew r w3 h3)
                λ up w4 h4.
                  >>=-Returns _ _ (edit_conn p (λ c. record c { user = some up })) _ w4
                    (edit_user-HasUser r up w4 h4.0 h4.1)
                    λ z w5 h5.
                      >>=-Returns _ _ (reach_host sys p up r host) _ w5
                        (reach_host-IsUnverified up r host w5 reach (rw h1.1 e) h5)
                        λ g w6 h6. finish-IsUnverified g w6 h6.0

-- A tunnel of a client that is not verified.
abbrev pub IsForwardingUnverified : ℕ → World → Type 0
IsForwardingUnverified p w =
    Returns
      (λ c.
        (c.cstate ≡ s_forward)
        × (c.sdk_verified ≡ 0)
        × Returns (λ b. Returns (λ s. s.status ≡ 0) (w.scm.heap b)) c.scb)
      (w.conns p)

on_begin_transmit-IsForwardingUnverified :
    (p : ℕ) (w : World)
    → IsUnverified p w
    → Returns (λ q. IsForwardingUnverified p q.1) (on_begin_transmit p 0 w)
unfolding on_begin_transmit
on_begin_transmit-IsForwardingUnverified p w h = ground arith

-- A client whose token nobody has checked is forwarded: after a login on a new connection, with any
-- token of at most 31 bytes and a host that is taken for an address, the message BEGIN_TRANSMIT with
-- the id 0 switches the tunnel to forwarding, while neither it nor its control block is verified.
-- Conditions: sockets can be opened and no `connect` fails at once, and the block to be used is new or
-- has been reset.
pub forwards_unverified :
    (sys : System) (p : ℕ) (r : LoginReq) (w : World)
    → IsReachable sys
    → IsNew p r w
    → strlen r.token < 32
    → r.host_len < length r.host
    → ip_or_host 0 (take r.host_len r.host) ≡ true
    → Returns
        (λ q. IsForwardingUnverified p q.1)
        ((on_login_req sys p r >> on_begin_transmit p 0) w)
forwards_unverified sys p r w reach h t l e =
    >>=-Returns _ _ (on_login_req sys p r) _ w (on_login_req-IsUnverified sys p r w reach h t l e)
      (λ st w1 h1. on_begin_transmit-IsForwardingUnverified p w1 h1)
