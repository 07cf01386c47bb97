-- ===== src/Tms/Events/Shutdown.antt =====
-- A web server that cannot be reached: `InformShutdownUser`, and `RemoveConn` behind it, as
-- tms/tms/main.cpp calls them.
use https_tunnel_proxy.Base.{ℕ, ◌≡◌, inl, inr, none, List, arith, Returns, Option-cases}
use https_tunnel_proxy.Tms.Accounting.{ok}
use https_tunnel_proxy.Tms.World.{World, System}
use https_tunnel_proxy.Tms.World.Action.{pure, ◌>>◌, >>=-Returns}
use https_tunnel_proxy.Tms.Removal.{delete_conn, report_or_accumulate_at, delete_peer, remove_conn}
use https_tunnel_proxy.Tms.Events.{inform_user, inform_shutdown_user}
use https_tunnel_proxy.Tms.Session.Stream.{Place, Stage}
use https_tunnel_proxy.Tms.Removal.Ends.{IsEntered, report-IsEntered}

-- The client's connection is gone; the connection to the web server is not entered any more, but is
-- still there, without a block; the block is not free and still has its stage.
abbrev pub IsLeaked : Place → Stage → List ℕ → World → Type 0
IsLeaked k g free w =
    (w.conns k.tunnel ≡ none)
    × (w.conn_map k.fd ≡ none)
    × (w.conn_map k.agent_fd ≡ none)
    × Returns (λ a. (a.scb ≡ none) × (a.user ≡ none) × (a.sock_fd ≡ k.agent_fd)) (w.conns k.agent)
    × Returns (λ s. (s.status ≡ g.status) × (s.forward_id ≡ g.forward_id)) (w.scm.heap k.block)
    × (w.scm.scb_free_list ≡ free)

module _ (sys : System) (k : Place) (g : Stage) where
  inform_user-IsLeaked :
      (w : World)
      → IsEntered k g w
      → Returns
          (λ q. IsLeaked k g w.scm.scb_free_list q.1)
          (inform_user sys k.agent_fd k.agent k.user k.block w)
  unfolding inform_user delete_peer delete_conn
  inform_user-IsLeaked w h =
      >>=-Returns _ _ (report_or_accumulate_at sys k.user k.block) _ w
        (report-IsEntered sys k g w h) λ a w1 h1. ground arith

  shutdown-IsLeaked :
      (w : World)
      → IsEntered k g w
      → Returns (λ q. IsLeaked k g w.scm.scb_free_list q.1) (inform_shutdown_user sys k.agent_fd w)
  unfolding inform_shutdown_user
  shutdown-IsLeaked w h = elim (Option-cases (w.conns k.agent)) [
    | inl e ↦ ground arith
    | inr (c, e) ↦
        let step : inform_shutdown_user sys k.agent_fd w
            ≡ (inform_user sys k.agent_fd k.agent k.user k.block >> pure ok) w =
          ground arith in
        rw step (
          >>=-Returns _ _ (inform_user sys k.agent_fd k.agent k.user k.block) _ w
            (inform_user-IsLeaked w h) λ a w1 h1. h1)
  ]

  -- When a web server cannot be reached, `InformShutdownUser` and the `RemoveConn` behind it delete
  -- the client's connection, but not the agent's: it is only no longer entered, so that `RemoveConn`
  -- does not find it, and the control block is not given back to the free list. Condition: the host of
  -- the tunnel is not longer than 256 bytes.
  pub inform_shutdown_user-IsLeaked :
      (w : World)
      → IsEntered k g w
      → Returns
          (λ q. IsLeaked k g w.scm.scb_free_list q.1)
          ((inform_shutdown_user sys k.agent_fd >> remove_conn sys k.agent_fd) w)
  unfolding remove_conn
  inform_shutdown_user-IsLeaked w h =
      >>=-Returns _ _ (inform_shutdown_user sys k.agent_fd) _ w (shutdown-IsLeaked w h)
        λ a w1 h1. ground arith
