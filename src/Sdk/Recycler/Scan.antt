-- ===== src/Sdk/Recycler/Scan.antt =====
-- `CRBScan` of sdk/sdk/Recycler.cpp, which ends connections that no longer transmit.
use https_tunnel_proxy.Base.{ℕ, zero, suc, ◌+◌, none, some, ltb, ◌==◌, if◌then◌else◌}
use https_tunnel_proxy.Base.State.{pure, undefined, ◌>>=◌, ◌>>◌, skip, gets}
use https_tunnel_proxy.Sdk.World.{ConnRecycleBlock, Iterator, unset, past_end, at, System}
use https_tunnel_proxy.Sdk.World.Action.{Action, conn_at, gettimeofday}
use https_tunnel_proxy.Sdk.Recycler.{
  block_at, edit_block, behind, first_of, seconds, crb_delay, crb_delete,
}
use https_tunnel_proxy.Sdk.Connection.{remove_connect}

-- Expire_Seconds
abbrev pub expire_seconds : ℕ
expire_seconds = 12

-- Expire_Count
abbrev pub expire_count : ℕ
expire_count = 5

-- The body of the loop for a node whose time is over: where the loop goes on. The iterator that
-- `CRBDelete` gets is a copy, so that the loop's still points to the node that is gone.
unfoldable pub scan_expired : System → ℕ → ConnRecycleBlock → Action Iterator
unfolding remove_connect crb_delay crb_delete
scan_expired sys n b = do
  found ← gets (λ w. w.conn_map b.fd)
  elim found [
    | none ↦ crb_delete (at n) >> pure (at n)
    | some none ↦ undefined
    | some (some p) ↦ do
      c ← conn_at p
      if b.traffic == c.http_transmit_len
          then (do it ← gets (λ w. behind w.expire_list n); remove_connect sys b.fd; pure it)
          else (do edit_block n (λ b. record b { traffic = c.http_transmit_len }); crb_delay sys n)
  ]

-- The loop, which has `i` rounds left.
unfoldable pub scan_from : System → ℕ → ℕ → Iterator → Action (Unit {0})
unfolding scan_expired
scan_from sys now i unset = undefined
scan_from sys now i past_end = skip
scan_from sys now zero (at n) = skip
scan_from sys now (suc i) (at n) = do
  b ← block_at n
  if ltb (b.tv_sec + expire_seconds) now
      then (scan_expired sys n b >>= λ it. scan_from sys now i it)
      else skip

-- `CRBScan`
unfoldable pub crb_scan : System → Action (Unit {0})
unfolding scan_from gettimeofday
crb_scan sys = do
  now ← gettimeofday sys
  it ← gets (λ w. first_of w.expire_list)
  scan_from sys (seconds now) expire_count it
