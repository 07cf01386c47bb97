-- ===== src/Tms/Connection/ForwardIds.antt =====
-- The forward ids that the proxy server gives out: `NewForwardId` of tms/tms/UserMgr.h.
use https_tunnel_proxy.Base.{
  ℕ, zero, suc, ◌+◌, ◌-◌, ◌%◌, ◌^◌, ◌≡◌, arith, ◌==◌, if◌then◌else◌, Returns,
}
use https_tunnel_proxy.Base.Int.{add64}
use https_tunnel_proxy.Tms.World.{World}
use https_tunnel_proxy.Tms.World.Action.{Action, ◌>>◌, skip, >>=-Returns}
use https_tunnel_proxy.Tms.Connection.{new_forward_id}

-- So many calls of `NewForwardId`.
unfoldable pub issue : ℕ → Action (Unit {0})
issue zero = skip
issue (suc n) = issue n >> (new_forward_id >> skip)

-- The next id is the one of the counter `n`.
abbrev pub IsNth : ℕ → World → Type 0
IsNth n w =
    (if w.aval_forward_id == 2 ^ 64 - 1 then 1 else w.aval_forward_id) ≡ 1 + n % (2 ^ 64 - 2)

new_forward_id-IsNth :
    (n : ℕ) (w : World) → IsNth n w → Returns (λ q. IsNth (suc n) q.1) ((new_forward_id >> skip) w)
unfolding new_forward_id add64
new_forward_id-IsNth n w h = ground arith

issue-IsNth : (n : ℕ) (w : World) → w.aval_forward_id ≡ 1 → Returns (λ q. IsNth n q.1) (issue n w)
unfolding issue
issue-IsNth zero w h = ground arith
issue-IsNth (suc n) w h =
    >>=-Returns _ _ (issue n) _ w (issue-IsNth n w h) λ a w1 h1. new_forward_id-IsNth n w1 h1

-- From the start, the id that `NewForwardId` gives behind `n` others is 1 + n % (2 ^ 64 - 2): the
-- ids go round through all numbers from 1 to 2 ^ 64 - 2, and 0 is never one.
pub new_forward_id-issue :
    (n : ℕ) (w : World)
    → w.aval_forward_id ≡ 1
    → Returns (λ q. q.0 ≡ 1 + n % (2 ^ 64 - 2)) ((issue n >> new_forward_id) w)
unfolding new_forward_id
new_forward_id-issue n w h = >>=-Returns _ _ (issue n) _ w (issue-IsNth n w h) λ a w1 h1. h1
