-- ===== src/Sdk/Calls.antt =====
-- Calls of the library's user: `YMEConnectable` and `YMEShutDown` of sdk/sdk/SdkEnv.cpp.
use https_tunnel_proxy.Base.{
  ℕ, ◌+◌, ◌≡◌, ◌≢◌, Bool, true, false, none, some, arith, leb, Returns, ◌∷◌,
}
use https_tunnel_proxy.Base.Int.{◌-ℤ◌}
use https_tunnel_proxy.Base.State.{pure, ◌>>=◌, ◌>>◌, gets, modify}
use https_tunnel_proxy.Sdk.World.{System, World, asked_time}
use https_tunnel_proxy.Sdk.World.Action.{Action, gettimeofday}
use https_tunnel_proxy.Sdk.Connection.{delete_connect, erase_conn, let_in}

-- `YMEConnectable` opens the time window.
unfoldable pub yme_connectable : System → Action (Unit {0})
unfolding gettimeofday
yme_connectable sys = do
  now ← gettimeofday sys
  modify (λ w. record w { accept_begin_time = now; time_window = 1 })

-- `YMEShutDown`: whether it returns 0. To delete a null pointer does nothing.
unfoldable pub yme_shut_down : System → ℕ → Action Bool
unfolding delete_connect
yme_shut_down sys fd = do
  found ← gets (λ w. w.conn_map fd)
  elim found [
    | none ↦ pure false
    | some none ↦ erase_conn fd >> pure true
    | some (some p) ↦ delete_connect sys p >> (erase_conn fd >> pure true)
  ]

-- Once the window is open, a connection is let in exactly if it comes within five seconds of the last
-- one, or of the opening.
let_in_lem :
    (sys : System) (w : World)
    → w.time_window ≢ 0
    → Returns
        (λ q. q.0 ≡ leb (sys.now (asked_time ∷ w.calls)) (w.accept_begin_time + 5000000))
        (let_in sys w)
unfolding let_in gettimeofday ◌-ℤ◌
let_in_lem sys w h = ground arith
