-- ===== src/Tms/Download.antt =====
-- Downloads through the proxy server: the forwarding case of `StreamRecvEvent` for a connection to a
-- web server, and the part of `HandleEPOEvent` that goes on when the tunnel's socket takes bytes
-- again, both of tms/tms/ConnectMgr.cpp. What `send` returns is an argument; `none` is -1.
pub mod Delivery
pub mod Repeat
use https_tunnel_proxy.Base.{
  ℕ, ◌+◌, ◌-◌, Bool, true, false, List, ◌++◌, Option, none, some, length, take, drop, ltb, ◌==◌,
  if◌then◌else◌,
}
use https_tunnel_proxy.Tms.Types.{User, Scb}
use https_tunnel_proxy.Tms.Accounting.{Status, traffic_est, record_traffic}

-- The agent connection, with the user and the control block that it is charged to, and all bytes that
-- the tunnel's socket has taken. `hangup` is the status sta_hangup, in which its socket is not read.
pub record Download : Type 0 where
  pub buff : List ℕ
  pub offset : ℕ
  pub datalen : ℕ
  pub hangup : Bool
  pub user : User
  pub scb : Scb
  pub sent : List ℕ

-- sizeof(buff)
abbrev pub buff_size : ℕ
buff_size = 8192

abbrev unless_failed : User → Option Scb → Status → Option (User × Scb)
unless_failed u none st = none
unless_failed u (some s) Status.ok = some (u, s)
unless_failed u (some s) Status.failed = none

-- `RecordTraffic(scb, TrafficEst(n))`; `none`: the balance is used up and the connection is removed.
unfoldable pub charge : Bool → User → Scb → ℕ → Option (User × Scb)
charge accurate u s n =
    let r = record_traffic u (some s) (traffic_est accurate n) in unless_failed r.user r.scb r.ret

abbrev pub paid : Download → Option (User × Scb) → Option Download
paid d none = none
paid d (some (u, s)) = some (record d { user = u; scb = s })

-- `send` of `n` bytes that took `w` of them.
unfoldable pub hang_up : ℕ → ℕ → Download → Download
hang_up n w d = if w == n then d else record d { datalen = n - w; offset = w; hangup = true }

-- The forwarding case, on the bytes `got` that `read` put at `buff + offset`.
unfoldable pub forward : Bool → Download → List ℕ → Option ℕ → Option Download
unfolding charge hang_up
forward accurate d got none = some (
    hang_up (length got) 0
      (record d { buff = take d.offset d.buff ++ (got ++ drop (d.offset + length got) d.buff) }))
forward accurate d got (some w) =
    let buff = take d.offset d.buff ++ (got ++ drop (d.offset + length got) d.buff) in
    paid (hang_up (length got) w (record d { buff = buff; sent = d.sent ++ take w buff }))
      (charge accurate d.user d.scb w)

-- The bytes that are left, after a `send` that took `w` of them.
unfoldable pub advance : ℕ → Download → Download
advance w d =
    if w == d.datalen
    then record d { offset = 0; hangup = false }
    else if ltb 0 w
    then record d { offset = d.offset + w; datalen = d.datalen - w }
    else d

-- `HandleEPOEvent` for a tunnel that forwards.
unfoldable pub writable : Bool → Download → Option ℕ → Option Download
unfolding charge advance
writable accurate d none = some d
writable accurate d (some w) =
    if d.datalen == 0
    then some d
    else (let d' = advance w (record d { sent = d.sent ++ take w (drop d.offset d.buff) }) in
        if ltb 0 w then paid d' (charge accurate d.user d.scb w) else some d')
