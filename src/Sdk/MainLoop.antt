-- ===== src/Sdk/MainLoop.antt =====
-- The event loop of the client library: `SdkMainLoopRun` of sdk/sdk/SdkMainloop.cpp, for Linux, where
-- `errno` is never EINTR.
pub mod Crash
use https_tunnel_proxy.Base.{
  ℕ, ◌+◌, Bool, true, false, ◌&&◌, List, [], ◌∷◌, Option, none, some, ◌==◌, if◌then◌else◌,
}
use https_tunnel_proxy.Base.State.{pure, ◌>>=◌, ◌>>◌, skip, gets}
use https_tunnel_proxy.Sdk.World.{System, ym_ev_rd, ym_ev_wr, ym_ev_once}
use https_tunnel_proxy.Sdk.World.Action.{Action}
use https_tunnel_proxy.Sdk.Connection.{add_event, handle_accept_event, remove_connect}
use https_tunnel_proxy.Sdk.Stream.{more, again, failed, handle_epo_event}
use https_tunnel_proxy.Sdk.Proxy.{handle_recv_event}
use https_tunnel_proxy.Sdk.Recycler.Scan.{crb_scan}

-- What `recv` answers behind the last chunk: -1 with EAGAIN, 0, and -1 with another error.
pub data Last : Type 0 where
  drained closed broken : Last

-- An entry of `ev_list`: what can be read, if it says EPOLLIN, and whether it says EPOLLOUT for a socket
-- without an error.
pub record Report : Type 0 where
  pub fd : ℕ
  pub readable : Option (List (List ℕ) × Last)
  pub writable : Bool

-- EPOLLIN on the listening socket.
unfoldable pub on_accept : System → ℕ → Action (Unit {0})
unfolding handle_accept_event add_event
on_accept sys m_socket = handle_accept_event sys >>= λ new. elim new [
  | none ↦ skip
  | some fd ↦ add_event sys fd (ym_ev_rd + ym_ev_wr + ym_ev_once) >> skip
]

-- EPOLLIN on another socket: whether EPOLLOUT is looked at after it.
unfoldable pub on_readable : System → ℕ → List (List ℕ) → Last → Action Bool
unfolding handle_recv_event remove_connect
on_readable sys fd bss last = handle_recv_event sys fd bss >>= λ q. elim q.0 [
  | again ↦ pure false
  | failed ↦ gets (λ w. sys.would_block w.calls) >>= λ b.
      if b then pure true else (remove_connect sys fd >> pure false)
  | more ↦ elim last [
    | drained ↦ pure true
    | closed ↦ remove_connect sys fd >> pure false
    | broken ↦ remove_connect sys fd >> pure false
  ]
]

-- EPOLLOUT
unfoldable pub on_writable : System → ℕ → Action (Unit {0})
unfolding handle_epo_event remove_connect
on_writable sys fd = handle_epo_event sys fd >>= λ ok. if ok then skip else remove_connect sys fd

-- One entry of `ev_list`.
unfoldable pub on_report : System → ℕ → Report → Action (Unit {0})
unfolding on_accept on_readable on_writable
on_report sys m_socket r = do
  goes_on ← elim r.readable [
    | none ↦ pure true
    | some (bss, last) ↦
        if r.fd == m_socket
        then (on_accept sys m_socket >> pure true)
        else on_readable sys r.fd bss last
  ]
  if goes_on && r.writable then on_writable sys r.fd else skip

unfoldable pub on_reports : System → ℕ → List Report → Action (Unit {0})
unfolding on_report
on_reports sys m_socket [] = skip
on_reports sys m_socket (r ∷ rs) = on_report sys m_socket r >> on_reports sys m_socket rs

-- A round of the loop, for what `epoll_wait` gives.
unfoldable pub loop_round : System → ℕ → List Report → Action (Unit {0})
unfolding on_reports crb_scan
loop_round sys m_socket rs = on_reports sys m_socket rs >> crb_scan sys
