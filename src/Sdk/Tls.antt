-- ===== src/Sdk/Tls.antt =====
-- The search for the server's name in a TLS client hello: `PACKET`, `tls_parse_extension_host` and
-- `DetactTlsClientHello` of sdk/sdk/YMEUtils.cpp. The memory from `start` on is a function, since the
-- code can read behind the packet. `#pragma packet` is not known to compilers, so both structs have
-- their natural layout of six bytes.
pub mod Scan
use https_tunnel_proxy.Base.{
  ℕ, zero, suc, ◌+◌, ◌-◌, ◌*◌, ◌%◌, ◌^◌, Bool, false, not, List, [], ◌∷◌, Option, none, some, ltb,
  ◌==◌, if◌then◌else◌,
}
use https_tunnel_proxy.Base.Int.{ℤ, pos, negsuc, ◌-ℤ◌, ltb_ℤ}

abbrev pub Memory : Type 0
Memory = ℕ → ℕ

-- PACKET: where it reads, and how many bytes it counts as left.
pub record Packet : Type 0 where
  pub curr : ℕ
  pub remaining : ℤ

-- `!PACKET_remaining(pkt)`
abbrev pub is_zero : ℤ → Bool
is_zero (pos n) = n == 0
is_zero (negsuc n) = false

unfoldable pub packet_forward : Packet → ℕ → Packet
packet_forward p n = record { curr = p.curr + n; remaining = p.remaining -ℤ pos n }

-- The results of the PACKET functions: `none` is 0, and else there is the number read.
unfoldable pub packet_get_1 : Memory → Packet → Option (ℕ × Packet)
unfolding packet_forward
packet_get_1 mem p = if is_zero p.remaining then none else some (mem p.curr, packet_forward p 1)

abbrev pub net_2 : Memory → ℕ → ℕ
net_2 mem i = mem i * 256 + mem (i + 1)

unfoldable pub packet_get_net_2 : Memory → Packet → Option (ℕ × Packet)
unfolding packet_forward
packet_get_net_2 mem p =
    if ltb_ℤ p.remaining (pos 2) then none else some (net_2 mem p.curr, packet_forward p 2)

unfoldable pub packet_skip_field_1 : Memory → Packet → Option Packet
unfolding packet_get_1
packet_skip_field_1 mem p = elim (packet_get_1 mem p) [
  | none ↦ none
  | some (n, p') ↦ some (packet_forward p' n)
]

unfoldable pub packet_skip_field_2 : Memory → Packet → Option Packet
unfolding packet_forward
packet_skip_field_2 mem p =
    if ltb_ℤ p.remaining (pos 2) then none else some (packet_forward p (2 + net_2 mem p.curr))

-- An `int` compared with a `size_t`.
abbrev pub as_size : ℤ → ℕ
as_size (pos n) = n
as_size (negsuc n) = 2 ^ 64 - n - 1

-- `n` bytes of the memory.
unfoldable pub bytes_at : Memory → ℕ → ℕ → List ℕ
bytes_at mem i zero = []
bytes_at mem i (suc n) = mem i ∷ bytes_at mem (i + 1) n

unfoldable pub packet_copy_bytes : Memory → Packet → ℕ → Option (List ℕ × Packet)
unfolding packet_forward bytes_at
packet_copy_bytes mem p n =
    if ltb (as_size p.remaining) n then none else some (bytes_at mem p.curr n, packet_forward p n)

-- The variables `type`, `tlen`, `*host`; what they hold at first is given.
pub record Vars : Type 0 where
  pub type : ℕ
  pub tlen : ℕ
  pub host : List ℕ

-- Behind `type == 0`; `*hostlen` is `tlen`.
unfoldable pub take_name : Memory → Packet → Vars → Vars
unfolding packet_get_net_2 packet_copy_bytes
take_name mem p v = elim (packet_get_net_2 mem p) [
  | none ↦ elim (packet_copy_bytes mem p v.tlen) [
    | none ↦ v
    | some (bs, _) ↦ record v { host = bs }
  ]
  | some (n, p') ↦ elim (packet_copy_bytes mem p' n) [
    | none ↦ record v { tlen = n }
    | some (bs, _) ↦ record v { tlen = n; host = bs }
  ]
]

-- `tls_parse_extension_host`: `none` is out of fuel, and `some none` the result 0.
unfoldable pub tls_parse_extension_host : ℕ → Memory → Packet → Vars → Option (Option Vars)
unfolding packet_get_net_2 take_name
tls_parse_extension_host zero mem p v = none
tls_parse_extension_host (suc fuel) mem p v =
    if not (ltb_ℤ (pos 0) p.remaining) then some none else elim (packet_get_net_2 mem p) [
      | none ↦
          if v.type == 0
          then some (some (take_name mem p v))
          else tls_parse_extension_host fuel mem p v
      | some (t, p') ↦
          if t == 0
          then some (some (take_name mem p' (record v { type = t })))
          else tls_parse_extension_host fuel mem p' (record v { type = t })
    ]

abbrev behind : Packet → Option (ℕ × Packet) → Packet
behind p none = p
behind p (some (n, p')) = p'

-- The results -1 and 0, the latter with what was found.
pub data Detected : Type 0 where
  failed : Detected
  found : Vars → Detected

abbrev detected : Option (Option Vars) → Option Detected
detected none = none
detected (some none) = some failed
detected (some (some v)) = some (found v)

-- From the session id on.
unfoldable pub parse_body : ℕ → Memory → Vars → Packet → Option Detected
unfolding packet_skip_field_1 packet_skip_field_2 tls_parse_extension_host
parse_body fuel mem v p = elim (packet_skip_field_1 mem p) [
  | none ↦ some failed
  | some p₁ ↦ elim (packet_skip_field_2 mem p₁) [
    | none ↦ some failed
    | some p₂ ↦ elim (packet_skip_field_1 mem p₂) [
      | none ↦ some failed
      | some p₃ ↦
          if is_zero p₃.remaining
          then some failed
          else detected (tls_parse_extension_host fuel mem p₃ v)
    ]
  ]
]

-- `DetactTlsClientHello`. The handshake header is looked for six headers of six bytes behind `start`.
unfoldable pub detact_tls_client_hello : ℕ → Memory → ℕ → Vars → Option Detected
unfolding parse_body packet_get_1 packet_get_net_2 packet_forward
detact_tls_client_hello fuel mem packet_len v =
    if ltb packet_len 0x40
    then some failed
    else if not (mem 0 == 0x16)
    then some failed
    else if mem 36 == 1
    then some failed
    else (let remain = net_2 mem 4 in
        let packet_remain = (packet_len - 12) % 2 ^ 32 in
        let p : Packet = record {
          curr = 12;
          remaining = pos (if ltb packet_remain remain then packet_remain else remain);
        } in
        let p₁ = behind p (packet_get_1 mem p) in
        let p₂ = behind p₁ (packet_get_net_2 mem p₁) in
        parse_body fuel mem v (packet_forward p₂ 0x20))
