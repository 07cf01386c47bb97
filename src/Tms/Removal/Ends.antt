-- ===== src/Tms/Removal/Ends.antt =====
-- What is left of a stream once one of its two connections has ended.
use https_tunnel_proxy.Base.{
  ℕ, ◌^◌, ◌≤◌, ◌<◌, ◌≡◌, inl, inr, Bool, Option, none, some, List, [], ◌∷◌, ◌++◌, arith, length,
  ◌==◌, Returns, Returns-map, Option-cases,
}
use https_tunnel_proxy.Wire.Messages.{Timeval, LoginRsp}
use https_tunnel_proxy.Tms.Types.{User, Scb, reset_scb}
use https_tunnel_proxy.Tms.Accounting.{Tunnel, Reported, report_or_accumulate, report_with}
use https_tunnel_proxy.Tms.ScbMgr.{recycle_scb}
use https_tunnel_proxy.Tms.World.{World, Connect, System, Call}
use https_tunnel_proxy.Tms.World.Action.{
  Action, pointer, ◌>>=◌, ◌>>◌, modify, put_user, put_scb, >>=-Returns,
}
use https_tunnel_proxy.Tms.Connection.{gettimeofday}
use https_tunnel_proxy.Tms.Removal.{
  delete_conn, erase_conn, tunnel_of, report_or_accumulate_at, delete_peer, release_scb,
  remove_stream, leave, remove_conn,
}
use https_tunnel_proxy.Tms.Session.Stream.{Place, Stage, IsStream, IsTunnel, IsAgent, told}

-- A stream whose two connections are entered under descriptors that are not negative, and whose host
-- fits into a report.
abbrev pub IsEntered : Place → Stage → World → Type 0
IsEntered k g w =
    IsStream k g w
    × (w.conn_map k.agent_fd ≡ some k.agent)
    × (k.fd < 2 ^ 63)
    × (k.agent_fd < 2 ^ 63)
    × Returns (λ c. length c.curr_host ≤ 256) (w.conns k.tunnel)

-- What a reset block holds.
abbrev pub IsReset : Scb → Type 0
IsReset s =
    (s.scbid ≡ 0)
    × (s.user ≡ none)
    × (s.status ≡ 0)
    × (s.connected ≡ 0)
    × (s.forward_id ≡ 0)
    × (s.traffic ≡ 0)
    × (s.tunnel_conn ≡ none)
    × (s.agent_conn ≡ none)

-- Neither connection is there any more, the block is reset, at the end of the free list,
-- and the last answer to the client is the given one.
abbrev pub IsGone : Place → List ℕ → Option LoginRsp → World → Type 0
IsGone k free answer w =
    (w.conns k.tunnel ≡ none)
    × (w.conns k.agent ≡ none)
    × (w.conn_map k.fd ≡ none)
    × (w.conn_map k.agent_fd ≡ none)
    × Returns IsReset (w.scm.heap k.block)
    × (w.scm.scb_free_list ≡ free ++ k.block ∷ [])
    × (told k.fd w.calls ≡ answer)

-- What a report keeps of a block.
abbrev KeepsBlock : Scb → Scb → Type 0
KeepsBlock s s' =
    (s'.tunnel_conn ≡ s.tunnel_conn)
    × (s'.agent_conn ≡ s.agent_conn)
    × (s'.status ≡ s.status)
    × (s'.connected ≡ s.connected)
    × (s'.forward_id ≡ s.forward_id)

report-KeepsBlock :
    (accurate : Bool) (now later : Timeval) (u : User) (s : Scb) (t : Tunnel)
    → length t.curr_host ≤ 256
    → Returns (λ r. KeepsBlock s r.scb) (report_or_accumulate accurate now later u s (some t))
unfolding report_or_accumulate report_with
report-KeepsBlock accurate now later u s t h = ground arith

-- The part of a report behind its reading.
abbrev write_report : ℕ → ℕ → Option Reported → Action (Unit {0})
write_report up sp o = do
  r ← pointer o
  put_user up r.user
  put_scb sp r.scb
  modify (λ w. record w { reports = w.reports ++ r.reports })

write_report-IsEntered :
    (k : Place) (g : Stage) (s : Scb) (o : Option Reported) (w : World)
    → IsEntered k g w
    → w.scm.heap k.block ≡ some s
    → Returns (λ r. KeepsBlock s r.scb) o
    → Returns
        (λ q.
          IsEntered k g q.1
          × (q.1.scm.scb_free_list ≡ w.scm.scb_free_list)
          × (told k.fd q.1.calls ≡ told k.fd w.calls))
        (write_report k.user k.block o w)
write_report-IsEntered k g s o w h e r = ground arith

pub report-IsEntered :
    (sys : System) (k : Place) (g : Stage) (w : World)
    → IsEntered k g w
    → Returns
        (λ q.
          IsEntered k g q.1
          × (q.1.scm.scb_free_list ≡ w.scm.scb_free_list)
          × (told k.fd q.1.calls ≡ told k.fd w.calls))
        (report_or_accumulate_at sys k.user k.block w)
unfolding report_or_accumulate_at gettimeofday tunnel_of told
report-IsEntered sys k g w h = elim (Option-cases (w.conns k.tunnel)) [
  | inl e ↦ ground arith
  | inr (c, e) ↦ elim (Option-cases (w.users k.user)) [
    | inl d ↦ ground arith
    | inr (u, d) ↦ elim (Option-cases (w.scm.heap k.block)) [
      | inl b ↦ ground arith
      | inr (s, b) ↦
          let now = sys.now w.calls in
          let later = sys.now (Call.asked_time ∷ w.calls) in
          let t : Tunnel = record { begin_time = c.begin_time; curr_host = c.curr_host } in
          let w' = record w { calls = Call.asked_time ∷ Call.asked_time ∷ w.calls } in
          let step : report_or_accumulate_at sys k.user k.block w
              ≡ write_report k.user k.block
                  (report_or_accumulate sys.accurate now later u s (some t)) w' =
            ground arith in
          rw step (
            write_report-IsEntered k g s (report_or_accumulate sys.accurate now later u s (some t))
              w' (ground arith) b (report-KeepsBlock sys.accurate now later u s t (ground arith)))
    ]
  ]
]

-- The state before the last connection is deleted: its peer is gone and the block is free.
abbrev IsLeft : Place → Option LoginRsp → ℕ → ℕ → ℕ → ℕ → List ℕ → World → Type 0
IsLeft k answer p fd peer peer_fd free w =
    Returns (λ c. (c.scb ≡ some k.block) × (c.sock_fd ≡ fd)) (w.conns p)
    × (w.conns peer ≡ none)
    × (w.conn_map peer_fd ≡ none)
    × Returns IsReset (w.scm.heap k.block)
    × (w.scm.scb_free_list ≡ free ++ k.block ∷ [])
    × (told k.fd w.calls ≡ answer)

module _ (sys : System) (k : Place) (g : Stage) where
  remove_tunnel-IsLeft :
      (c : Connect) (w : World)
      → IsEntered k g w
      → IsTunnel k c
      → Returns
          (λ q.
            IsLeft k (told k.fd w.calls) k.tunnel k.fd k.agent k.agent_fd w.scm.scb_free_list q.1)
          (remove_stream sys k.tunnel c k.user k.block w)
  unfolding remove_stream delete_peer delete_conn release_scb recycle_scb reset_scb told
  remove_tunnel-IsLeft c w h t =
      >>=-Returns _ _ (report_or_accumulate_at sys k.user k.block) _ w
        (report-IsEntered sys k g w h) λ a w1 h1. ground arith

  remove_agent-IsLeft :
      (c : Connect) (w : World)
      → IsEntered k g w
      → IsAgent k c
      → Returns
          (λ q.
            IsLeft k (told k.fd w.calls) k.agent k.agent_fd k.tunnel k.fd w.scm.scb_free_list q.1)
          (remove_stream sys k.agent c k.user k.block w)
  unfolding remove_stream delete_peer delete_conn release_scb recycle_scb reset_scb told
  remove_agent-IsLeft c w h t =
      >>=-Returns _ _ (report_or_accumulate_at sys k.user k.block) _ w
        (report-IsEntered sys k g w h) λ a w1 h1. ground arith

  leave_tunnel-IsLeft :
      (c : Connect) (w : World)
      → IsEntered k g w
      → IsTunnel k c
      → Returns
          (λ q.
            IsLeft k (told k.fd w.calls) k.tunnel k.fd k.agent k.agent_fd w.scm.scb_free_list q.1)
          (leave sys k.tunnel c w)
  unfolding leave
  leave_tunnel-IsLeft c w h t = rw (t.0, t.1, t.2, ◌==◌) (remove_tunnel-IsLeft c w h t)

  leave_agent-IsLeft :
      (c : Connect) (w : World)
      → IsEntered k g w
      → IsAgent k c
      → Returns
          (λ q.
            IsLeft k (told k.fd w.calls) k.agent k.agent_fd k.tunnel k.fd w.scm.scb_free_list q.1)
          (leave sys k.agent c w)
  unfolding leave
  leave_agent-IsLeft c w h t = rw (t.0, t.1, t.2, ◌==◌) (remove_agent-IsLeft c w h t)

  finish-IsLeft :
      (answer : Option LoginRsp) (p fd peer peer_fd : ℕ) (free : List ℕ) (w : World)
      → IsLeft k answer p fd peer peer_fd free w
      → Returns
          (λ q.
            (q.1.conns p ≡ none)
            × (q.1.conns peer ≡ none)
            × (q.1.conn_map fd ≡ none)
            × (q.1.conn_map peer_fd ≡ none)
            × Returns IsReset (q.1.scm.heap k.block)
            × (q.1.scm.scb_free_list ≡ free ++ k.block ∷ [])
            × (told k.fd q.1.calls ≡ answer))
          ((delete_conn p >> erase_conn fd) w)
  unfolding delete_conn told
  finish-IsLeft answer p fd peer peer_fd free w h = ground arith

  remove_tunnel-IsGone :
      (w : World)
      → IsEntered k g w
      → Returns (λ q. IsGone k w.scm.scb_free_list (told k.fd w.calls) q.1) (remove_conn sys k.fd w)
  unfolding remove_conn
  remove_tunnel-IsGone w h = elim (Option-cases (w.conns k.tunnel)) [
    | inl e ↦ ground arith
    | inr (c, e) ↦
        let step : remove_conn sys k.fd w
            ≡ (leave sys k.tunnel c >>= λ _. delete_conn k.tunnel >> erase_conn k.fd) w =
          ground arith in
        rw step (
          >>=-Returns _ _ (leave sys k.tunnel c) _ w (leave_tunnel-IsLeft c w h (ground arith))
            λ a w1 h1.
              Returns-map _ _ ((delete_conn k.tunnel >> erase_conn k.fd) w1) (λ q h2. ground arith)
                (finish-IsLeft (told k.fd w.calls) k.tunnel k.fd k.agent k.agent_fd
                  w.scm.scb_free_list w1 h1))
  ]

  remove_agent-IsGone :
      (w : World)
      → IsEntered k g w
      → Returns
          (λ q. IsGone k w.scm.scb_free_list (told k.fd w.calls) q.1)
          (remove_conn sys k.agent_fd w)
  unfolding remove_conn
  remove_agent-IsGone w h = elim (Option-cases (w.conns k.agent)) [
    | inl e ↦ ground arith
    | inr (c, e) ↦
        let step : remove_conn sys k.agent_fd w
            ≡ (leave sys k.agent c >>= λ _. delete_conn k.agent >> erase_conn k.agent_fd) w =
          ground arith in
        rw step (
          >>=-Returns _ _ (leave sys k.agent c) _ w (leave_agent-IsLeft c w h (ground arith))
            λ a w1 h1.
              Returns-map _ _ ((delete_conn k.agent >> erase_conn k.agent_fd) w1)
                (λ q h2. ground arith)
                (finish-IsLeft (told k.fd w.calls) k.agent k.agent_fd k.tunnel k.fd
                  w.scm.scb_free_list w1 h1))
  ]

  -- Whichever of its two connections ends, `RemoveConn` runs without a fault and leaves nothing of a
  -- stream: both connections are deleted and no longer entered, and the control block is reset and at
  -- the end of the free list, and the client is told nothing more. Condition: the host of the tunnel is not longer than 256 bytes.
  pub remove_conn-IsGone :
      (w : World)
      → IsEntered k g w
      → Returns (λ q. IsGone k w.scm.scb_free_list (told k.fd w.calls) q.1) (remove_conn sys k.fd w)
        × Returns
            (λ q. IsGone k w.scm.scb_free_list (told k.fd w.calls) q.1)
            (remove_conn sys k.agent_fd w)
  remove_conn-IsGone w h = (remove_tunnel-IsGone w h, remove_agent-IsGone w h)
