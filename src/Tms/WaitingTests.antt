-- ===== src/Tms/WaitingTests.antt =====
-- The uses of the theorems on the name server's answers and on uploads, on the data of
-- Tms/SessionData.
use https_tunnel_proxy.Base.{◌≡◌, refl, none, some, [], ◌∷◌, arith, ◌==◌, if◌then◌else◌, Returns}
use https_tunnel_proxy.Tms.Accounting.{traffic_est}
use https_tunnel_proxy.Tms.World.{World, set}
use https_tunnel_proxy.Tms.Login.{LoginReq}
use https_tunnel_proxy.Tms.WaitLists.{UscbId}
use https_tunnel_proxy.Tms.SessionData.{
  sys, tunnel, user, block, world, stream, place, start, login,
}
use https_tunnel_proxy.Tms.Session.Stream.{IsStream}
use https_tunnel_proxy.Tms.Inform.{inform_client}
use https_tunnel_proxy.Tms.Inform.Waiting.{IsServed, inform_client-IsAttached}
use https_tunnel_proxy.Tms.Forward.{forward_read}
use https_tunnel_proxy.Tms.Forward.Upload.{IsPaid, is_short, IsForwarded, forward_read-IsPaid}

-- A user who asked for a host with block number 1 and has left; the block is now in its second use, by
-- the tunnel of user 0.
abbrev reused : World
reused = record (world tunnel (record block { scbid = 2; agent_conn = none })) {
  users = set (set (λ p. none) 0 user) 1 (record user { mobile = 14; app = 2 });
  user_map = λ m a. if m == 14 then some 1 else some 0;
  scb_trees = λ u i. if u == 1 then some 0 else none;
}

abbrev left : UscbId
left = record { mobile = 14; app = 2; scbid = 1 }

inform_client-IsAttached_example :
    Returns (λ q. IsServed 1 0 0 0 5 16843009 80 q.1) (inform_client sys 16843009 left reused)
inform_client-IsAttached_example =
    inform_client-IsAttached sys left 1 0 0 0 16843009 80 reused (ground arith)
      ((λ calls. tt), λ calls ip port. refl)
      (refl, refl, refl, (refl, refl, refl), tt, ground arith) refl

-- A login for the host `ab`.
abbrev by_name : LoginReq
by_name = record login { host_len = 2; host = 97 ∷ 98 ∷ 0 ∷ [] }

stream-IsStream : IsStream place start stream
stream-IsStream = (
  (refl, refl, refl, refl, refl),
  (refl, refl, refl, refl),
  (refl, refl, refl, refl, refl),
  tt,
  refl,
  refl,
  refl,
  refl,
)

forward_read-IsPaid_example :
    Returns
      (λ q.
        IsPaid place block user 10 q.1
        × IsStream place start q.1
        × IsForwarded place (is_short start user 10) 10 [] q
        × (q.1.conns ≡ stream.conns))
      (forward_read sys 0 10 stream)
unfolding traffic_est
forward_read-IsPaid_example =
    forward_read-IsPaid sys place start 10 block user stream stream-IsStream refl refl
