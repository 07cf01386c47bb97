-- ===== src/Tms/Events/Accept.antt =====
-- A new client, for whose descriptor a connection may still be entered.
use https_tunnel_proxy.Base.{ℕ, ◌≡◌, ◌≢◌, ◌⊎◌, Option, none, some, arith, Returns}
use https_tunnel_proxy.Wire.Bytes.{header_size}
use https_tunnel_proxy.Tms.World.{
  World, Connect, System, new_connect, s_header, t_tunnel, reset_connect,
}
use https_tunnel_proxy.Tms.Connection.{gettimeofday, new_conn}
use https_tunnel_proxy.Tms.Events.{fresh_conn, handle_accept_event}

-- What a connection keeps of the one whose object it uses again.
abbrev pub Leftover : Connect → Connect → Type 0
Leftover old c =
    (c.exit ≡ old.exit)
    × (c.traffic_tmp ≡ old.traffic_tmp)
    × (c.offset ≡ old.offset)
    × (c.token ≡ old.token)
    × (c.mobile ≡ old.mobile)

-- What a new connection has of the one that was entered, if there was one.
abbrev pub Inherits : Option Connect → Connect → Type 0
Inherits none c = (c.exit ≡ 0) × (c.traffic_tmp ≡ 0) × (c.offset ≡ 0)
Inherits (some old) c = Leftover old c

-- A connection that waits for a header and belongs to nobody.
abbrev pub IsAwaited : ℕ → Connect → Type 0
IsAwaited fd c =
    (c.sock_fd ≡ fd)
    × (c.type ≡ t_tunnel)
    × (c.cstate ≡ s_header)
    × (c.stillneedtoread ≡ header_size)
    × (c.sdk_verified ≡ 0)
    × (c.user ≡ none)
    × (c.scb ≡ none)

-- The connection that is entered for a descriptor.
abbrev pub entry : ℕ → World → Option Connect
entry fd w = elim (w.conn_map fd) [ none ↦ none | some p ↦ w.conns p ]

-- A new descriptor gets a connection that waits for a header and belongs to no user. If a connection
-- is still entered for the descriptor, its object is used again, and the new client inherits its
-- `exit` flag, the traffic before its login, its read position, its token and its mobile; otherwise
-- `exit`, the traffic and the read position are 0. Condition: what is entered is there.
pub handle_accept_event-IsAwaited :
    (sys : System) (fd : ℕ) (w : World)
    → sys.accept w.calls ≡ some fd
    → (w.conn_map fd ≡ none) ⊎ (entry fd w ≢ none)
    → Returns
        (λ q.
          (q.0 ≡ some fd) × Returns (λ c. IsAwaited fd c × Inherits (entry fd w) c) (entry fd q.1))
        (handle_accept_event sys w)
unfolding handle_accept_event fresh_conn new_conn new_connect reset_connect gettimeofday
handle_accept_event-IsAwaited sys fd w e h = ground arith
