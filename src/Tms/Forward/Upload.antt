-- ===== src/Tms/Forward/Upload.antt =====
-- The bytes of a client on their way to its web server.
use https_tunnel_proxy.Base.{ℕ, ◌≡◌, Bool, ◌&&◌, some, List, arith, ◌==◌, if◌then◌else◌, Returns}
use https_tunnel_proxy.Base.Int.{add64, sub64, signed64, ltb_ℤ, pos}
use https_tunnel_proxy.Tms.Types.{User, Scb, u_validated}
use https_tunnel_proxy.Tms.Accounting.{record_traffic, traffic_est, min_balance}
use https_tunnel_proxy.Tms.World.{World, System, Call, Message}
use https_tunnel_proxy.Tms.Connection.{send, record_traffic_at}
use https_tunnel_proxy.Tms.Forward.{Round, again, broken, upload, forward_read}
use https_tunnel_proxy.Tms.Session.Stream.{Place, Stage, IsStream, IsSent}

-- The block has been charged, and the user.
abbrev pub IsPaid : Place → Scb → User → ℕ → World → Type 0
IsPaid k s u cost w =
    Returns (λ s'. s'.traffic ≡ add64 s.traffic cost) (w.scm.heap k.block)
    × Returns (λ u'. u'.balance ≡ sub64 u.balance cost) (w.users k.user)

-- A validated block whose user has too little left behind a charge.
abbrev pub is_short : Stage → User → ℕ → Bool
is_short g u cost =
    (g.status == u_validated) && ltb_ℤ (signed64 (sub64 u.balance cost)) (pos min_balance)

-- What has been sent: nothing for a user who is short, and otherwise the bytes, once, to the agent.
abbrev pub IsForwarded : Place → Bool → ℕ → List Call → Round × World → Type 0
IsForwarded k short n old q =
    if short
    then (q.0 ≡ broken) × (q.1.calls ≡ old)
    else (q.0 ≡ again) × IsSent k.agent_fd (Message.forwarded k.tunnel 0 n) old q.1.calls

-- The bytes that a client sends are charged in full before they are sent on, to its user and its block.
-- If the block is verified and the user has less than 4000 bytes left behind the charge, nothing is
-- sent and the loop ends with -1; otherwise they are given to the web server's socket once, and what
-- that does not take is neither kept nor paid back: the stream is the same whatever `send` returns.
pub forward_read-IsPaid :
    (sys : System) (k : Place) (g : Stage) (n : ℕ) (s : Scb) (u : User) (w : World)
    → IsStream k g w
    → w.scm.heap k.block ≡ some s
    → w.users k.user ≡ some u
    → Returns
        (λ q.
          IsPaid k s u (traffic_est sys.accurate n) q.1
          × IsStream k g q.1
          × IsForwarded k (is_short g u (traffic_est sys.accurate n)) n w.calls q
          × (q.1.conns ≡ w.conns))
        (forward_read sys k.tunnel n w)
unfolding forward_read upload send record_traffic_at record_traffic
forward_read-IsPaid sys k g n s u w h e d = ground arith
