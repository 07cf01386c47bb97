-- ===== src/Tms/Login/Attach.antt =====
-- The login of a new client, up to the connection to its web server.
use https_tunnel_proxy.Base.{
  ℕ, ◌+◌, ◌%◌, ◌^◌, ◌≡◌, ap, ◌≢◌, true, Option, none, some, List, ◌∷◌, arith, Returns, get_elem?,
}
use https_tunnel_proxy.Tms.Types.{make_scb}
use https_tunnel_proxy.Tms.Accounting.{record_traffic}
use https_tunnel_proxy.Tms.ScbMgr.{ScbMgr, new_scb}
use https_tunnel_proxy.Tms.World.{
  World, System, Call, Message, new_connect, t_tunnel, t_agent, t_center,
}
use https_tunnel_proxy.Tms.World.Action.{>>=-Returns}
use https_tunnel_proxy.Tms.Connection.{
  send, record_traffic_at, charge_tunnel, send_tms_msg, gettimeofday, new_conn, connect_agent,
  create_agent_conn, new_scb_at, set_agent, enter_scb, create_new_scb, create_scb, scb_for_agent,
  attach_agent, attach_or_fail, connect_web_server,
}
use https_tunnel_proxy.Tms.Login.{LoginReq, ask_center}

-- The block that is used next, if it is one from the free list, has been reset.
abbrev pub IsFreeReset : ScbMgr → Type 0
IsFreeReset m = elim (get_elem? m.scb_free_list 0) [
  | none ↦ Unit
  | some b ↦ Returns (λ s. (s.status ≡ 0) × (s.forward_id ≡ 0)) (m.heap b)
]

-- The entry of `_UserMap` for a request, if there is one, points to a user.
abbrev pub IsKnown : LoginReq → World → Type 0
IsKnown r w = elim (w.user_map r.mobile r.app) [
  | none ↦ Unit
  | some u ↦ Returns (λ x. Unit {0}) (w.users u)
]

-- A tunnel that has not logged in, with the state that a login needs.
abbrev pub IsNew : ℕ → LoginReq → World → Type 0
IsNew p r w =
    Returns (λ c. (c.type ≡ t_tunnel) × (c.sdk_verified ≡ 0) × (c.user ≡ none) × (c.scb ≡ none))
      (w.conns p)
    × (p ≢ w.next_conn)
    × IsFreeReset w.scm
    × Returns (λ cn. Returns (λ c. c.type ≡ t_center) (w.conns cn)) (get_elem? w.center_pool 0)
    × IsKnown r w

-- A tunnel whose client is not verified and whose block has an agent.
abbrev pub IsUnverified : ℕ → World → Type 0
IsUnverified p w =
    Returns
      (λ c.
        (c.type ≡ t_tunnel)
        × (c.sdk_verified ≡ 0)
        × Returns (λ u. Returns (λ x. Unit {0}) (w.users u)) c.user
        × Returns
            (λ b.
              Returns
                (λ s. (s.status ≡ 0) × (s.forward_id ≡ 0) × Returns (λ a. Unit {0}) s.agent_conn)
                (w.scm.heap b))
            c.scb)
      (w.conns p)

-- Every socket can be opened and no connection fails at once.
abbrev pub IsReachable : System → Type 0
IsReachable sys =
    ((cs : List Call) → Returns (λ fd. Unit {0}) (sys.socket cs))
    × ((cs : List Call) (ip port : ℕ) → sys.connect cs ip port ≡ true)

module _ (sys : System) (p : ℕ) where
  send-IsUnverified :
      (m : Message) (w : World)
      → IsUnverified p w
      → Returns (λ q. IsUnverified p q.1) (send_tms_msg sys p m w)
  unfolding send_tms_msg send charge_tunnel record_traffic_at record_traffic
  send-IsUnverified m w h = ground arith

  pub ask_center-IsNew :
      (r : LoginReq) (w : World) → IsNew p r w → Returns (λ q. IsNew p r q.1) (ask_center sys p r w)
  unfolding ask_center send_tms_msg send charge_tunnel record_traffic_at record_traffic
  ask_center-IsNew r w h = ground arith

-- The tunnel once its user is found.
abbrev pub HasUser : ℕ → ℕ → World → Type 0
HasUser p up w =
    Returns (λ c. (c.type ≡ t_tunnel) × (c.sdk_verified ≡ 0) × (c.user ≡ some up) × (c.scb ≡ none))
      (w.conns p)
    × (p ≢ w.next_conn)
    × IsFreeReset w.scm
    × Returns (λ x. Unit {0}) (w.users up)

module _ (sys : System) (p : ℕ) where
  abbrev pub IsAttached : Option ℕ × World → Type 0
  IsAttached q = IsUnverified p q.1 × Returns (λ sp. Unit {0}) q.0

  create_agent_conn-HasUser :
      (ip port up : ℕ) (w : World)
      → IsReachable sys
      → HasUser p up w
      → Returns
          (λ q.
            HasUser p up (record q.1 { next_conn = p + 1 })
            × Returns (λ a. (a ≢ p) × Returns (λ c. c.type ≡ t_agent) (q.1.conns a)) q.0)
          (create_agent_conn sys ip port w)
  unfolding create_agent_conn connect_agent new_conn new_connect
  create_agent_conn-HasUser ip port up w reach h =
      ground (arith, reach.0 w.calls, reach.1 (Call.asked_socket ∷ w.calls) (ip % 2 ^ 32) port)

  scb_for_agent-IsUnverified :
      (ap port up : ℕ) (w : World)
      → ap ≢ p
      → Returns (λ c. Unit {0}) (w.conns ap)
      → HasUser p up (record w { next_conn = p + 1 })
      → Returns
          (λ q. IsUnverified p q.1 × Returns (λ c. Unit {0}) (q.1.conns ap))
          (scb_for_agent sys up p ap port w)
  unfolding scb_for_agent create_scb create_new_scb new_scb_at new_scb gettimeofday set_agent
      enter_scb make_scb
  scb_for_agent-IsUnverified ap port up w n a h = ground arith

  attach-IsUnverified :
      (ap port up : ℕ) (w : World)
      → ap ≢ p
      → Returns (λ c. Unit {0}) (w.conns ap)
      → HasUser p up (record w { next_conn = p + 1 })
      → Returns IsAttached (attach_agent sys up p ap port w)
  unfolding attach_agent send_tms_msg send charge_tunnel record_traffic_at record_traffic
  attach-IsUnverified ap port up w n a h =
      >>=-Returns _ _ (scb_for_agent sys up p ap port) _ w
        (scb_for_agent-IsUnverified ap port up w n a h) λ sp w1 h1. ground arith

  attach_or_fail-IsUnverified :
      (port up : ℕ) (a : Option ℕ) (w : World)
      → HasUser p up (record w { next_conn = p + 1 })
      → Returns (λ a. (a ≢ p) × Returns (λ c. c.type ≡ t_agent) (w.conns a)) a
      → Returns IsAttached (attach_or_fail sys up p port a w)
  unfolding attach_or_fail
  attach_or_fail-IsUnverified port up none w h e = ground arith
  attach_or_fail-IsUnverified port up (some a) w h e =
      attach-IsUnverified a port up w e.0 (ground arith) h

  pub connect_web_server-IsUnverified :
      (ip port up : ℕ) (w : World)
      → IsReachable sys
      → HasUser p up w
      → Returns IsAttached (connect_web_server sys up p ip port w)
  unfolding connect_web_server
  connect_web_server-IsUnverified ip port up w reach h =
      >>=-Returns _ _ (create_agent_conn sys ip port) _ w
        (create_agent_conn-HasUser ip port up w reach h)
        (λ a w1 h1. attach_or_fail-IsUnverified port up a w1 h1.0 h1.1)
