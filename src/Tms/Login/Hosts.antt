-- ===== src/Tms/Login/Hosts.antt =====
-- Which hosts the proxy server takes for addresses: `IpOrHost` of tms/tms/ConnectMgr.cpp.
use https_tunnel_proxy.Base.{ℕ, ◌+◌, ◌≡◌, ◌↔◌, true, List, [], ◌∷◌, arith, ◌==◌, if◌then◌else◌}
use https_tunnel_proxy.Tms.Login.{ip_or_host}

-- How many points a host has.
unfoldable pub points : List ℕ → ℕ
points [] = 0
points (b ∷ bs) = let rest = points bs in if b == b'.' then rest + 1 else rest

ip_or_host-from : (n : ℕ) (host : List ℕ) → ip_or_host n host ≡ ((n + points host) == 3)
unfolding ip_or_host points
ip_or_host-from n [] = ground arith
ip_or_host-from n (b ∷ bs) = ground (arith, ip_or_host-from n bs, ip_or_host-from (n + 1) bs)

-- A host is taken for an address exactly if it has three points, whatever its other bytes are: the test
-- that a byte is below `0` and above `9` never holds.
pub ip_or_host-points : (host : List ℕ) → (ip_or_host 0 host ≡ true) ↔ (points host ≡ 3)
ip_or_host-points host = ground (arith, ip_or_host-from 0 host)
