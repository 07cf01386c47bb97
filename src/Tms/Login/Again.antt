-- ===== src/Tms/Login/Again.antt =====
-- A second login on a connection whose client has been verified.
use https_tunnel_proxy.Base.{ℕ, ◌≡◌, ◌≢◌, Option, none, some, List, Returns, get_elem?}
use https_tunnel_proxy.Wire.RespCode
use https_tunnel_proxy.Tms.Types.{u_validated}
use https_tunnel_proxy.Tms.World.{World, Connect, System, t_tunnel, t_agent, t_dns, t_center}
use https_tunnel_proxy.Tms.Login.{LoginReq}

-- The first connection of a pool is there and has the type.
abbrev pub HasPool : ℕ → List ℕ → World → Type 0
HasPool type pool w = Returns (λ d. Returns (λ c. c.type ≡ type) (w.conns d)) (get_elem? pool 0)

-- The connections that a login asks, and the address of the next one.
abbrev pub HasPools : ℕ → World → Type 0
HasPools p w = HasPool t_center w.center_pool w × HasPool t_dns w.dns_pool w × (p ≢ w.next_conn)

-- The entry of `_UserMap` for a request, if there is one, points to the user of the request.
abbrev pub IsMapped : LoginReq → World → Type 0
IsMapped r w = elim (w.user_map r.mobile r.app) [
  | none ↦ Unit
  | some u ↦ Returns (λ x. (x.mobile ≡ r.mobile) × (x.app ≡ r.app)) (w.users u)
]

-- A tunnel with a validated block, charged to the user at an address.
abbrev pub IsValidated : ℕ → Connect → World → Type 0
IsValidated up c w =
    (c.type ≡ t_tunnel)
    × (c.sdk_verified ≡ 1)
    × (c.user ≡ some up)
    × Returns
        (λ b.
          Returns
            (λ s.
              (s.status ≡ u_validated) × Returns (λ u. Returns (λ x. Unit {0}) (w.users u)) s.user)
            (w.scm.heap b))
        c.scb

module _ (sys : System) (p : ℕ) (r : LoginReq) where
  -- Before the user changes.
  abbrev pub IsOld : ℕ → World → Type 0
  IsOld up w =
      Returns (λ c. IsValidated up c w) (w.conns p)
      × Returns (λ x. Unit {0}) (w.users up)
      × HasPools p w
      × IsMapped r w

  -- Once the tunnel is charged to the user of the request.
  abbrev IsSwitched : ℕ → World → Type 0
  IsSwitched up w =
      Returns (λ c. IsValidated up c w) (w.conns p)
      × Returns (λ x. (x.mobile ≡ r.mobile) × (x.app ≡ r.app)) (w.users up)
      × HasPool t_dns w.dns_pool w
      × (p ≢ w.next_conn)

  -- An agent has been made, or not.
  abbrev HasAgent : ℕ → Option ℕ → World → Type 0
  HasAgent up a w =
      Returns (λ c. IsValidated up c w) (w.conns p)
      × Returns (λ x. (x.mobile ≡ r.mobile) × (x.app ≡ r.app)) (w.users up)
      × elim a [ none ↦ Unit | some q ↦ Returns (λ c. c.type ≡ t_agent) (w.conns q) ]

  -- The tunnel is verified, and is charged to a user with the mobile and the app of the request.
  abbrev pub IsCharged : World → Type 0
  IsCharged w =
      Returns
        (λ c.
          (c.sdk_verified ≡ 1)
          × Returns (λ b. Returns (λ s. s.status ≡ u_validated) (w.scm.heap b)) c.scb
          × Returns (λ u. Returns (λ x. (x.mobile ≡ r.mobile) × (x.app ≡ r.app)) (w.users u))
              c.user)
        (w.conns p)
