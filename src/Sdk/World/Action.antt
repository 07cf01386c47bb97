-- ===== src/Sdk/World/Action.antt =====
-- What a method of the client library does to its state.
use https_tunnel_proxy.Base.{ℕ, none, some, ◌∷◌}
use https_tunnel_proxy.Base.State.{State, ◌>>=◌, ◌>>◌, gets}
use https_tunnel_proxy.Tms.World.{set}
use https_tunnel_proxy.Sdk.World.{World, Connect, Call, System, asked_time}

abbrev pub Action : Type 0 → Type 0
Action A = State World A

abbrev pub call : Call → Action (Unit {0})
call c w = some (tt, record w { calls = c ∷ w.calls })

-- The object at an address.
abbrev pub conn_at : ℕ → Action Connect
conn_at p w = elim (w.conns p) [ none ↦ none | some c ↦ some (c, w) ]

abbrev pub put_conn : ℕ → Connect → Action (Unit {0})
put_conn p c w = some (tt, record w { conns = set w.conns p c })

abbrev pub edit_conn : ℕ → (Connect → Connect) → Action (Unit {0})
edit_conn p f = conn_at p >>= λ c. put_conn p (f c)

-- `gettimeofday`
unfoldable pub gettimeofday : System → Action ℕ
gettimeofday sys = call asked_time >> gets (λ w. sys.now w.calls)
