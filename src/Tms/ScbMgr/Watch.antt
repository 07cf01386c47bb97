-- ===== src/Tms/ScbMgr/Watch.antt =====
-- What a scan of the watched control blocks keeps: tms/tms/SCB.h.
use https_tunnel_proxy.Base.{
  ◌≡◌, refl, Bool, false, not, ◌&&◌, List, [], ◌∷◌, Option, none, some, arith, ◌==◌, keep_if, All,
}
use https_tunnel_proxy.Tms.Types.{Scb}
use https_tunnel_proxy.Tms.ScbMgr.{Heap, ScbWatchNode, scan_watch, scan_expire, scb_watch_scan}

-- The block of the node is still in its use, and has carried bytes since it was put on the list.
abbrev pub is_active : Option Scb → ScbWatchNode → Bool
is_active none n = false
is_active (some s) n = (n.scbid == s.scbid) && not (n.traffic == s.traffic)

-- Still in its use, with no byte since.
abbrev pub is_quiet : Option Scb → ScbWatchNode → Bool
is_quiet none n = false
is_quiet (some s) n = (n.scbid == s.scbid) && (n.traffic == s.traffic)

abbrev pub IsAllocated : Heap → ScbWatchNode → Type 0
IsAllocated h n = (s : Scb) × (h n.scb ≡ some s)

scan_watch_lem :
    (h : Heap) (ns : List ScbWatchNode)
    → All (IsAllocated h) ns
    → scan_watch h ns
      ≡ some (record {
        watch = keep_if (λ n. is_active (h n.scb) n) ns;
        expire = keep_if (λ n. is_quiet (h n.scb) n) ns;
      })
unfolding scan_watch
scan_watch_lem h [] a = refl
scan_watch_lem h (n ∷ ns) a = let (s, e) = a.0 in rw (e, scan_watch_lem h ns a.1) (ground arith)

scan_expire_quiet :
    (h : Heap) (ns watch : List ScbWatchNode)
    → All (IsAllocated h) ns
    → scan_expire h (keep_if (λ n. is_quiet (h n.scb) n) ns) watch ≡ some watch
unfolding scan_expire
scan_expire_quiet h [] watch a = refl
scan_expire_quiet h (n ∷ ns) watch a =
    let (s, e) = a.0 in rw e (ground (arith, scan_expire_quiet h ns watch a.1))

-- A scan ends with no read through a bad pointer, and leaves the nodes, in their order, whose block is
-- in the same use as when it was put on the list and has carried bytes since; nodes of recycled blocks
-- and of quiet ones are dropped. The nodes point to allocated blocks, and the expire list was empty.
pub scb_watch_scan_lem :
    (h : Heap) (ns : List ScbWatchNode)
    → All (IsAllocated h) ns
    → scb_watch_scan h (record { watch = ns; expire = [] })
      ≡ some (keep_if (λ n. is_active (h n.scb) n) ns)
unfolding scb_watch_scan
scb_watch_scan_lem h ns a = rw (scan_watch_lem h ns a, scb_watch_scan) (scan_expire_quiet h ns _ a)
