-- ===== src/Tms/Inform/ByName.antt =====
-- The login of a client for a host whose address is not known, and the answer of the name server.
use https_tunnel_proxy.Base.{ℕ, ◌≡◌, ap, some, List, Returns}
use https_tunnel_proxy.Tms.World.{World, System, t_agent}
use https_tunnel_proxy.Tms.Login.{LoginReq}

module _ (sys : System) (p : ℕ) (r : LoginReq) (host : List ℕ) where
  -- The tunnel's block has an agent that is charged to the tunnel's user.
  abbrev pub IsConnecting : World → Type 0
  IsConnecting w =
      Returns
        (λ c.
          Returns
            (λ sp.
              Returns
                (λ s.
                  Returns
                    (λ ap.
                      Returns (λ a. (a.type ≡ t_agent) × (a.scb ≡ some sp) × (a.user ≡ c.user))
                        (w.conns ap))
                    s.agent_conn)
                (w.scm.heap sp))
            c.scb)
        (w.conns p)
