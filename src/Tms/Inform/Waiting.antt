-- ===== src/Tms/Inform/Waiting.antt =====
-- A block that waits for the name server, and one that does not wait any more.
use https_tunnel_proxy.Base.{
  ℕ, ◌+◌, ◌%◌, ◌^◌, ◌≡◌, ap, ◌≢◌, inl, inr, List, [], ◌∷◌, Option, none, some, arith, Returns,
  Option-cases, subst, ==_refl, ◌==◌, if◌then◌else◌,
}
use https_tunnel_proxy.Wire.RespCode
use https_tunnel_proxy.Tms.WaitLists.{UscbId}
use https_tunnel_proxy.Tms.Accounting.{record_traffic}
use https_tunnel_proxy.Tms.World.{
  World, System, Call, Message, new_connect, t_tunnel, t_agent, epollout, epollet,
}
use https_tunnel_proxy.Tms.World.Action.{pure, ◌>>=◌, ◌>>◌, conn_at, >>=-Returns}
use https_tunnel_proxy.Tms.Connection.{
  send, record_traffic_at, charge_tunnel, send_tms_msg, add_event, new_conn, connect_agent,
  create_agent_conn, set_agent, scb_for_agent, attach_agent, attach_or_fail, connect_web_server,
}
use https_tunnel_proxy.Tms.Inform.{inform_client, connect_block, after_connect}
use https_tunnel_proxy.Tms.Login.Attach.{IsReachable}

-- A waiting entry whose user's tree leads to the block at `sp`, which belongs to the tunnel at `t` of
-- the user at `other`.
abbrev pub LeadsTo : UscbId → ℕ → ℕ → ℕ → ℕ → World → Type 0
LeadsTo id up sp t other w =
    (w.user_map id.mobile id.app ≡ some up)
    × (w.scb_trees up id.scbid ≡ some sp)
    × Returns (λ s. s.tunnel_conn ≡ some t) (w.scm.heap sp)
    × Returns (λ c. (c.type ≡ t_tunnel) × (c.scb ≡ some sp) × (c.user ≡ some other)) (w.conns t)
    × Returns (λ x. Unit {0}) (w.users other)
    × (t ≢ w.next_conn)

-- The block has the agent at `ap`, which is charged to the user at `up`; its tunnel is still charged to
-- the user at `other`.
abbrev pub IsAttached : ℕ → ℕ → ℕ → ℕ → ℕ → World → Type 0
IsAttached up sp t other ap w =
    Returns (λ s. (s.tunnel_conn ≡ some t) × (s.agent_conn ≡ some ap)) (w.scm.heap sp)
    × Returns (λ c. (c.scb ≡ some sp) × (c.user ≡ some other) × (c.type ≡ t_tunnel)) (w.conns t)
    × Returns (λ a. (a.type ≡ t_agent) × (a.scb ≡ some sp) × (a.user ≡ some up)) (w.conns ap)
    × Returns (λ x. Unit {0}) (w.users other)

-- The last `connect` of a descriptor: an address and a port.
unfoldable pub connected_to : ℕ → List Call → Option (ℕ × ℕ)
connected_to fd [] = none
connected_to fd (Call.asked_connect f ip port ∷ cs) =
    let before = connected_to fd cs in if f == fd then some (ip, port) else before
connected_to fd (c ∷ cs) = connected_to fd cs

-- The socket of the agent at `ap` was last connected to this address and port.
abbrev pub IsConnectedTo : ℕ → ℕ → ℕ → World → Type 0
IsConnectedTo ap ip port w =
    Returns (λ a. connected_to a.sock_fd w.calls ≡ some (ip, port)) (w.conns ap)

-- The block is attached to the agent, whose socket goes to this address and port.
abbrev pub IsServed : ℕ → ℕ → ℕ → ℕ → ℕ → ℕ → ℕ → World → Type 0
IsServed up sp t other ap ip port w = IsAttached up sp t other ap w × IsConnectedTo ap ip port w

module _ (sys : System) (id : UscbId) (up sp t other : ℕ) where
  agent-LeadsTo :
      (ip port : ℕ) (w : World)
      → IsReachable sys
      → LeadsTo id up sp t other w
      → Returns
          (λ q.
            LeadsTo id up sp t other (record q.1 { next_conn = w.next_conn })
            × (q.0 ≡ some w.next_conn)
            × Returns (λ a. a.type ≡ t_agent) (q.1.conns w.next_conn)
            × IsConnectedTo w.next_conn (ip % 2 ^ 32) port q.1)
          (create_agent_conn sys ip port w)
  unfolding create_agent_conn connect_agent new_conn new_connect connected_to
  agent-LeadsTo ip port w reach h = elim (Option-cases (sys.socket w.calls)) [
    | inl e ↦ absurd (subst (Returns _) e (reach.0 w.calls))
    | inr (fd, e) ↦
        ground (arith, e, ==_refl fd, reach.1 (Call.asked_socket ∷ w.calls) (ip % 2 ^ 32) port)
  ]

  scb_for_agent-IsServed :
      (ap ip port : ℕ) (w : World)
      → LeadsTo id up sp t other (record w { next_conn = ap })
      → Returns (λ a. a.type ≡ t_agent) (w.conns ap)
      → IsConnectedTo ap ip port w
      → Returns (λ q. IsServed up sp t other ap ip port q.1) (scb_for_agent sys up t ap port w)
  unfolding scb_for_agent set_agent
  scb_for_agent-IsServed ap ip port w h a c = ground arith

  tell-IsServed :
      (ap sp' ip port : ℕ) (w : World)
      → IsServed up sp t other ap ip port w
      → Returns
          (λ q. IsServed up sp t other ap ip port q.1 × Returns (λ b. Unit {0}) q.0)
          ((conn_at ap >>= λ a.
              add_event a.sock_fd (epollout + epollet)
              >> (send_tms_msg sys t (Message.connect_host RespCode.prog) >> pure (some sp')))
            w)
  unfolding send_tms_msg send charge_tunnel record_traffic_at record_traffic connected_to
  tell-IsServed ap sp' ip port w h = ground arith

  attach-IsServed :
      (ap ip port : ℕ) (w : World)
      → LeadsTo id up sp t other (record w { next_conn = ap })
      → Returns (λ a. a.type ≡ t_agent) (w.conns ap)
      → IsConnectedTo ap ip port w
      → Returns
          (λ q. IsServed up sp t other ap ip port q.1 × Returns (λ b. Unit {0}) q.0)
          (attach_agent sys up t ap port w)
  unfolding attach_agent
  attach-IsServed ap ip port w h a c =
      >>=-Returns _ _ (scb_for_agent sys up t ap port) _ w
        (scb_for_agent-IsServed ap ip port w h a c) λ sp' w1 h1. tell-IsServed ap sp' ip port w1 h1

  connect_web_server-IsServed :
      (ip port : ℕ) (w : World)
      → IsReachable sys
      → LeadsTo id up sp t other w
      → Returns
          (λ q.
            IsServed up sp t other w.next_conn (ip % 2 ^ 32) port q.1 × Returns (λ b. Unit {0}) q.0)
          (connect_web_server sys up t ip port w)
  unfolding connect_web_server attach_or_fail
  connect_web_server-IsServed ip port w reach h =
      >>=-Returns _ _ (create_agent_conn sys ip port) _ w (agent-LeadsTo ip port w reach h)
        λ a w1 h1. rw h1.1 (attach-IsServed w.next_conn (ip % 2 ^ 32) port w1 h1.0 h1.2 h1.3)

  after_connect-IsServed :
      (ap ip port : ℕ) (r : Option ℕ) (w : World)
      → IsServed up sp t other ap ip port w × Returns (λ b. Unit {0}) r
      → Returns (λ q. IsServed up sp t other ap ip port q.1) (after_connect sys sp r w)
  unfolding after_connect
  after_connect-IsServed ap ip port none w h = ground arith
  after_connect-IsServed ap ip port (some b) w h = h.0

  connect_block-IsServed :
      (ip port : ℕ) (w : World)
      → IsReachable sys
      → LeadsTo id up sp t other w
      → Returns (λ s. s.dest_port ≡ port) (w.scm.heap sp)
      → Returns
          (λ q. IsServed up sp t other w.next_conn (ip % 2 ^ 32) port q.1)
          (connect_block sys ip up sp w)
  unfolding connect_block
  connect_block-IsServed ip port w reach h d =
      let step : connect_block sys ip up sp w
          ≡ (connect_web_server sys up t ip port >>= λ r. after_connect sys sp r) w =
        ground arith in
      rw step (
        >>=-Returns _ _ (connect_web_server sys up t ip port) _ w
          (connect_web_server-IsServed ip port w reach h)
          λ r w1 h1. after_connect-IsServed w.next_conn (ip % 2 ^ 32) port r w1 h1)

  -- An entry that waits for the name server is answered by the block that its user's tree has under
  -- its number, whoever uses that block by now: its tunnel, which is another user's, gets an agent
  -- that is charged to the user who asked, and the last `connect` of the agent's socket is to the
  -- address that was asked for, at the port of the block. The block's number is not compared.
  -- Conditions: the host has an address, sockets can be opened and no `connect` fails at once.
  pub inform_client-IsAttached :
      (ip port : ℕ) (w : World)
      → ip ≢ 0
      → IsReachable sys
      → LeadsTo id up sp t other w
      → Returns (λ s. s.dest_port ≡ port) (w.scm.heap sp)
      → Returns
          (λ q. IsServed up sp t other w.next_conn (ip % 2 ^ 32) port q.1)
          (inform_client sys ip id w)
  unfolding inform_client
  inform_client-IsAttached ip port w n reach h d =
      let step : inform_client sys ip id w ≡ connect_block sys ip up sp w = ground arith in
      rw step (connect_block-IsServed ip port w reach h d)
