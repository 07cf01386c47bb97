-- ===== src/Tms/World/Action.antt =====
-- What a method does to the state. `none` is a read through a pointer to nothing, or a write behind an
-- array.
use https_tunnel_proxy.Base.{ℕ, none, some, ◌∷◌}
use https_tunnel_proxy.Base.State.{State}
pub use https_tunnel_proxy.Base.State.{
  pure, undefined, gets, pointer, ◌>>=◌, ◌>>◌, skip, modify, >>=-Returns,
}
use https_tunnel_proxy.Tms.Types.{User, Scb}
use https_tunnel_proxy.Tms.ScbMgr.{update}
use https_tunnel_proxy.Tms.World.{World, Connect, Call, set}

abbrev pub Action : Type 0 → Type 0
Action A = State World A

abbrev pub call : Call → Action (Unit {0})
call c w = some (tt, record w { calls = c ∷ w.calls })

-- The object at an address.
abbrev pub conn_at : ℕ → Action Connect
conn_at p w = elim (w.conns p) [ none ↦ none | some c ↦ some (c, w) ]

abbrev pub user_at : ℕ → Action User
user_at p w = elim (w.users p) [ none ↦ none | some u ↦ some (u, w) ]

abbrev pub scb_at : ℕ → Action Scb
scb_at p w = elim (w.scm.heap p) [ none ↦ none | some s ↦ some (s, w) ]

abbrev pub put_conn : ℕ → Connect → Action (Unit {0})
put_conn p c w = some (tt, record w { conns = set w.conns p c })

abbrev pub put_user : ℕ → User → Action (Unit {0})
put_user p u w = some (tt, record w { users = set w.users p u })

abbrev pub put_scb : ℕ → Scb → Action (Unit {0})
put_scb p s w = some (tt, record w { scm = record w.scm { heap = update w.scm.heap p s } })

-- Changes of the object at an address.
abbrev pub edit_conn : ℕ → (Connect → Connect) → Action (Unit {0})
edit_conn p f = conn_at p >>= λ c. put_conn p (f c)

abbrev pub edit_user : ℕ → (User → User) → Action (Unit {0})
edit_user p f = user_at p >>= λ u. put_user p (f u)

abbrev pub edit_scb : ℕ → (Scb → Scb) → Action (Unit {0})
edit_scb p f = scb_at p >>= λ s. put_scb p (f s)
