-- ===== src/Tms/Inform.antt =====
-- The answers of the name server: `DnsRecvEvent` of tms/tms/ConnectMgr.cpp behind `res_parse`, and
-- `Update` and `InformClients` of tms/tms/DnsCache.h and tms/tms/DnsCache.cpp.
pub mod Waiting
pub mod Asking
pub mod ByName
use https_tunnel_proxy.Base.{ℕ, Option, none, some, List, [], ◌∷◌, ◌==◌, if◌then◌else◌, bytes_eq}
use https_tunnel_proxy.Wire.RespCode
use https_tunnel_proxy.Tms.Dns.{Rep}
use https_tunnel_proxy.Tms.WaitLists.{UscbId}
use https_tunnel_proxy.Tms.World.{System}
use https_tunnel_proxy.Tms.World.Action.{Action, gets, pointer, ◌>>=◌, ◌>>◌, skip, modify, scb_at}
use https_tunnel_proxy.Tms.Connection.{send_tms_msg, connect_web_server}
use https_tunnel_proxy.Tms.Session.{login_answer}

-- The message that the name is unknown, to the block's tunnel.
unfoldable pub tell_no_host : System → ℕ → Action (Unit {0})
tell_no_host sys sp = do
  s ← scb_at sp
  t ← pointer s.tunnel_conn
  send_tms_msg sys t (login_answer RespCode.host_not_exist 0 0)
  skip

-- What follows the connection, by whether there is one.
unfoldable pub after_connect : System → ℕ → Option ℕ → Action (Unit {0})
after_connect sys sp none = tell_no_host sys sp
after_connect sys sp (some sp') = skip

-- A block whose host has an address: it is connected, if it has a tunnel.
unfoldable pub connect_block : System → ℕ → ℕ → ℕ → Action (Unit {0})
connect_block sys ip up sp = do
  s ← scb_at sp
  elim s.tunnel_conn [
    | none ↦ skip
    | some t ↦ do r ← connect_web_server sys up t ip s.dest_port; after_connect sys sp r
  ]

-- One round of the loop of `InformClients`.
unfoldable pub inform_client : System → ℕ → UscbId → Action (Unit {0})
inform_client sys ip id = do
  u ← gets (λ w. w.user_map id.mobile id.app)
  elim u [
    | none ↦ skip
    | some up ↦ do
      sc ← gets (λ w. w.scb_trees up id.scbid)
      elim sc [
        | none ↦ skip
        | some sp ↦ if ip == 0 then tell_no_host sys sp else connect_block sys ip up sp
      ]
  ]

-- The loop, over the entries for a host.
unfoldable pub inform_each : System → List ℕ → ℕ → List (List ℕ × UscbId) → Action (Unit {0})
inform_each sys host ip [] = skip
inform_each sys host ip ((h, id) ∷ rest) =
    (if bytes_eq h host then inform_client sys ip id else skip) >> inform_each sys host ip rest

-- `_waiting_scb.erase`
unfoldable pub erase_waiting : List ℕ → List (List ℕ × UscbId) → List (List ℕ × UscbId)
erase_waiting host [] = []
erase_waiting host ((h, id) ∷ rest) =
    let others = erase_waiting host rest in if bytes_eq h host then others else (h, id) ∷ others

-- `InformClients`
unfoldable pub inform_clients : System → List ℕ → ℕ → Action (Unit {0})
inform_clients sys host ip = do
  waiting ← gets (λ w. w.waiting_scb)
  inform_each sys host ip waiting
  modify (λ w. record w { waiting_scb = erase_waiting host w.waiting_scb })

-- `Update`
unfoldable pub update_cache : List Rep → (List ℕ → Option ℕ) → List ℕ → Option ℕ
update_cache [] cache host = cache host
update_cache (r ∷ rs) cache host =
    update_cache rs (λ h. if bytes_eq r.host h then some r.ip else cache h) host

unfoldable pub inform_all : System → List Rep → Action (Unit {0})
inform_all sys [] = skip
inform_all sys (r ∷ rs) = inform_clients sys r.host r.ip >> inform_all sys rs

-- One round of `DnsRecvEvent`, on what `res_parse` read.
unfoldable pub on_dns_reply : System → List Rep → Action (Unit {0})
on_dns_reply sys rs =
    modify (λ w. record w { cache = update_cache rs w.cache }) >> inform_all sys rs
