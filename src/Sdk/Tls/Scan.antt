-- ===== src/Sdk/Tls/Scan.antt =====
-- The loop of `tls_parse_extension_host`: sdk/sdk/YMEUtils.cpp.
use https_tunnel_proxy.Base.{
  ℕ, zero, suc, ◌+◌, ◌*◌, ◌≤◌, ◌<◌, ◌≡◌, ◌≢◌, refl, none, some, arith, ◌==◌, Returns, Bool-cases,
  inl, inr,
}
use https_tunnel_proxy.Base.Int.{pos, ◌-ℤ◌}
use https_tunnel_proxy.Sdk.Tls.{
  Memory, Packet, Vars, net_2, bytes_at, packet_forward, packet_get_net_2, packet_copy_bytes,
  take_name, tls_parse_extension_host,
}

-- A packet with `r` bytes left at `i`.
abbrev pub at : ℕ → ℕ → Packet
at i r = record { curr = i; remaining = pos r }

-- With a single byte left and no zero type before it, the search never ends: no amount of fuel is
-- enough.
pub tls_parse_extension_host_stuck :
    (fuel : ℕ) (mem : Memory) (i : ℕ) (v : Vars)
    → v.type ≢ 0
    → tls_parse_extension_host fuel mem (at i 1) v ≡ none
unfolding tls_parse_extension_host packet_get_net_2
tls_parse_extension_host_stuck zero mem i v n = refl
tls_parse_extension_host_stuck (suc fuel) mem i v n =
    ground (arith, tls_parse_extension_host_stuck fuel mem i v n)

forward_two : (i r : ℕ) → packet_forward (at i (r + 2)) 2 ≡ at (i + 2) r
unfolding packet_forward ◌-ℤ◌
forward_two i r = ground arith

get_two :
    (mem : Memory) (i r : ℕ)
    → packet_get_net_2 mem (at i (r + 2)) ≡ some (net_2 mem i, at (i + 2) r)
unfolding packet_get_net_2
get_two mem i r = rw (forward_two i r) (ground arith)

round-next :
    (fuel : ℕ) (mem : Memory) (i r : ℕ) (v : Vars)
    → net_2 mem i ≢ 0
    → tls_parse_extension_host (suc fuel) mem (at i (r + 2)) v
      ≡ tls_parse_extension_host fuel mem (at (i + 2) r) (record v { type = net_2 mem i })
unfolding tls_parse_extension_host
round-next fuel mem i r v n = rw (get_two mem i r) (ground (arith, n))

round-end :
    (fuel : ℕ) (mem : Memory) (i : ℕ) (v : Vars)
    → tls_parse_extension_host (suc fuel) mem (at i 0) v ≡ some none
unfolding tls_parse_extension_host
round-end fuel mem i v = refl

round-zero :
    (fuel : ℕ) (mem : Memory) (i r : ℕ) (v : Vars)
    → net_2 mem i ≡ 0
    → tls_parse_extension_host (suc fuel) mem (at i (r + 2)) v
      ≡ some (some (take_name mem (at (i + 2) r) (record v { type = 0 })))
unfolding tls_parse_extension_host
round-zero fuel mem i r v n = rw (get_two mem i r, n) (ground arith)

take_name-net_2 :
    (mem : Memory) (i r : ℕ) (v : Vars)
    → net_2 mem i ≤ r
    → take_name mem (at i (r + 2)) v
      ≡ record v { tlen = net_2 mem i; host = bytes_at mem (i + 2) (net_2 mem i) }
unfolding take_name packet_copy_bytes
take_name-net_2 mem i r v h = rw (get_two mem i r, take_name) (ground (arith, h))

-- An even number of bytes is searched to the end: one round for every two bytes and one more is
-- enough.
pub tls_parse_extension_host-Returns :
    (mem : Memory) (words i : ℕ) (v : Vars)
    → Returns (λ _. Unit) (tls_parse_extension_host (suc words) mem (at i (words * 2)) v)
tls_parse_extension_host-Returns mem zero i v =
    let e : 0 * 2 ≡ 0 = omega arith in rw (e, round-end 0 mem i v) tt
tls_parse_extension_host-Returns mem (suc words) i v =
    let e : suc words * 2 ≡ words * 2 + 2 = omega arith in
    elim (Bool-cases (net_2 mem i == 0)) [
      | inl z ↦ rw (e, round-zero (suc words) mem i (words * 2) v (ground arith)) tt
      | inr n ↦
          rw (e, round-next (suc words) mem i (words * 2) v (ground arith))
            (tls_parse_extension_host-Returns mem words (i + 2) (record v { type = net_2 mem i }))
    ]

-- If the first zero among the two-byte words is word `k`, and the length behind it and as many bytes
-- are within the packet, the search ends in `k + 1` rounds with these bytes.
pub tls_parse_extension_host_finds :
    (mem : Memory) (k i r : ℕ) (v : Vars)
    → ((j : ℕ) → j < k → net_2 mem (i + j * 2) ≢ 0)
    → net_2 mem (i + k * 2) ≡ 0
    → net_2 mem (i + k * 2 + 2) ≤ r
    → tls_parse_extension_host (suc k) mem (at i (r + 2 + 2 + k * 2)) v
      ≡ some (
          some (record {
            type = 0;
            tlen = net_2 mem (i + k * 2 + 2);
            host = bytes_at mem (i + k * 2 + 2 + 2) (net_2 mem (i + k * 2 + 2));
          }))
tls_parse_extension_host_finds mem zero i r v n z h =
    let e : i + 0 * 2 ≡ i = omega arith in
    let f : r + 2 + 2 + 0 * 2 ≡ r + 2 + 2 = omega arith in
    rw (
      e,
      f,
      round-zero 0 mem i (r + 2) v (rw e at z),
      take_name-net_2 mem (i + 2) r (record v { type = 0 }) (rw e at h),
    )
tls_parse_extension_host_finds mem (suc k) i r v n z h =
    let e : i + suc k * 2 ≡ i + 2 + k * 2 = omega arith in
    let f : r + 2 + 2 + suc k * 2 ≡ r + 2 + 2 + k * 2 + 2 = omega arith in
    let e₀ : i + 0 * 2 ≡ i = omega arith in
    rw (e, f, round-next (suc k) mem i (r + 2 + 2 + k * 2) v (rw e₀ at (n 0 (omega arith))))
      (tls_parse_extension_host_finds mem k (i + 2) r (record v { type = net_2 mem i })
        (λ j l.
          let g : i + suc j * 2 ≡ i + 2 + j * 2 = omega arith in rw g at (n (suc j) (omega arith)))
        (rw e at z) (rw e at h))
