-- ===== src/Sdk/Stream/Relay/Watched.antt =====
-- `CRBScan` of sdk/sdk/Recycler.cpp on a connection through which a download goes.
use https_tunnel_proxy.Base.{
  ℕ, ◌+◌, ◌^◌, ◌≤◌, ◌<◌, ◌≡◌, ◌≢◌, refl, sym, subst, inl, inr, ◌∙◌, ==_refl, List, [], ◌∷◌, ◌++◌,
  ap, none, some, arith, Returns, Returns-map, Option-cases, All,
}
use https_tunnel_proxy.Base.Int.{pos, ◌-ℤ◌}
use https_tunnel_proxy.Base.State.{◌>>◌, skip, >>=-Returns, modify}
use https_tunnel_proxy.Tms.World.{set, unset}
use https_tunnel_proxy.Sdk.World.{
  Connect, ConnRecycleBlock, System, World, Call, at, t_proxy, asked_time, sta_disconnected,
}
use https_tunnel_proxy.Sdk.Recycler.{seconds, crb_delete, erase_node, unwatch}
use https_tunnel_proxy.Sdk.Recycler.Scan.{crb_scan, scan_from, scan_expired, expire_seconds}
use https_tunnel_proxy.Sdk.World.Action.{Action, gettimeofday}
use https_tunnel_proxy.Sdk.Connection.{
  remove_connect, erase_conn, delete_peer, delete_connect, has_proxy, remove_event, control,
}
use https_tunnel_proxy.Sdk.Stream.Relay.{sent, got, Ends, IsProxy, IsRelaying, remote_at}
use https_tunnel_proxy.Sdk.Stream.Relay.Run.{Event, IsArrival, Moved, run, run-Moved}

-- The recycler's only node is the one for the local program, and it has what the connection counts.
pub record IsWatched (k : Ends) (n : ℕ) (b : ConnRecycleBlock) : Type 0 where
  pub nodes : k.nodes ≡ record { id = n; block = b } ∷ []
  pub node : k.program.crb_it ≡ at n
  pub fd : b.fd ≡ k.proxy_fd
  pub conn : b.conn ≡ some k.proxy
  pub traffic : b.traffic ≡ k.program.http_transmit_len
  pub signed : k.proxy_fd < 2 ^ 63

-- Both ends are gone.
abbrev pub IsEnded : Ends → World → Type 0
IsEnded k w = (w.conns k.tunnel ≡ none) × (w.conns k.proxy ≡ none) × (w.conn_map k.proxy_fd ≡ none)

module _ (sys : System) where
  -- A connection that is no local program's goes without a look at the recycler.
  pub delete_connect-tunnel :
      (q : ℕ) (t : Connect) (w : World)
      → w.conns q ≡ some t
      → t.type ≢ t_proxy
      → Returns
          (λ v.
            (v.1.conns ≡ unset w.conns q)
            × (v.1.conn_map ≡ w.conn_map)
            × (v.1.expire_list ≡ w.expire_list))
          (delete_connect sys q w)
  unfolding delete_connect remove_event control
  delete_connect-tunnel q t w e f = ground arith

  pub delete_connect-proxy :
      (p q n : ℕ) (b : ConnRecycleBlock) (c : Connect) (w : World)
      → q ≢ p
      → w.conns p ≡ some c
      → c.crb_it ≡ at n
      → w.expire_list ≡ record { id = n; block = b } ∷ []
      → b.conn ≡ some p
      → Returns
          (λ v. (v.1.conns p ≡ none) × (v.1.conn_map ≡ w.conn_map) × (v.1.conns q ≡ w.conns q))
          (delete_connect sys p w)
  unfolding delete_connect remove_event control crb_delete erase_node unwatch
  delete_connect-proxy p q n b c w d e f g h = ground arith

  -- What `RemoveConnect` does once it has marked the connection.
  removal : ℕ → ℕ → ℕ → Action (Unit {0})
  removal q p fd = (delete_peer sys (some q) >> erase_conn fd) >> delete_connect sys p

  -- Between the two deletions.
  abbrev IsHalf : Ends → ℕ → ConnRecycleBlock → Connect → World → Type 0
  IsHalf k n b c w =
      (w.conns k.tunnel ≡ none)
      × (w.conns k.proxy ≡ some c)
      × (w.conn_map k.proxy_fd ≡ none)
      × (w.expire_list ≡ record { id = n; block = b } ∷ [])

  first-IsHalf :
      (k : Ends) (n : ℕ) (b : ConnRecycleBlock) (t c : Connect) (w : World)
      → k.tunnel ≢ k.proxy
      → w.conns k.tunnel ≡ some t
      → w.conns k.proxy ≡ some c
      → t.type ≢ t_proxy
      → w.expire_list ≡ record { id = n; block = b } ∷ []
      → Returns (λ v. IsHalf k n b c v.1) ((delete_connect sys k.tunnel >> erase_conn k.proxy_fd) w)
  first-IsHalf k n b t c w d e e' f h =
      >>=-Returns
        (λ v.
          (v.1.conns ≡ unset w.conns k.tunnel)
          × (v.1.conn_map ≡ w.conn_map)
          × (v.1.expire_list ≡ w.expire_list))
        _ (delete_connect sys k.tunnel) _ w (delete_connect-tunnel k.tunnel t w e f)
        (λ _ v m. (
          rw m.0 (rw (==_refl k.tunnel) refl),
          rw m.0 (ground arith),
          rw (==_refl k.proxy_fd) refl,
          m.2 ∙ h,
        ))

  removal-IsEnded :
      (k : Ends) (n : ℕ) (b : ConnRecycleBlock) (t c : Connect) (w : World)
      → k.tunnel ≢ k.proxy
      → w.conns k.tunnel ≡ some t
      → w.conns k.proxy ≡ some c
      → t.type ≢ t_proxy
      → c.crb_it ≡ at n
      → w.expire_list ≡ record { id = n; block = b } ∷ []
      → b.conn ≡ some k.proxy
      → Returns (λ q. IsEnded k q.1) (removal k.tunnel k.proxy k.proxy_fd w)
  unfolding removal delete_peer
  removal-IsEnded k n b t c w d e e' f g h i =
      let w₁ : World = record w { conn_map = unset w.conn_map t.sock_fd } in
      let step : removal k.tunnel k.proxy k.proxy_fd w
          ≡ ((delete_connect sys k.tunnel >> erase_conn k.proxy_fd) >> delete_connect sys k.proxy)
              w₁ =
        ground arith in
      rw step (
        >>=-Returns (λ v. IsHalf k n b c v.1) _
          (delete_connect sys k.tunnel >> erase_conn k.proxy_fd) _ w₁
          (first-IsHalf k n b t c w₁ d e e' f h)
          (λ _ v m.
            Returns-map
              (λ q.
                (q.1.conns k.proxy ≡ none)
                × (q.1.conn_map ≡ v.conn_map)
                × (q.1.conns k.tunnel ≡ v.conns k.tunnel))
              (λ q. IsEnded k q.1) (delete_connect sys k.proxy v)
              (λ q o. (o.2 ∙ m.0, o.0, rw o.1 m.2))
              (delete_connect-proxy k.proxy k.tunnel n b c v d m.1 g m.3 i)))

  remove_connect-IsEnded :
      (k : Ends) (s y : List ℕ) (n : ℕ) (b : ConnRecycleBlock) (t c : Connect) (w : World)
      → w.conns k.tunnel ≡ some t
      → w.conns k.proxy ≡ some c
      → IsWatched k n b
      → IsRelaying k s y w
      → Returns (λ q. IsEnded k q.1) (remove_connect sys k.proxy_fd w)
  remove_connect-IsEnded k s y n b t c w e e' h r =
      let i : IsProxy k c = subst (Returns _) e' r.local in
      let (j, a) = remote_at k s y t w e r in
      let c₁ = record c { status = sta_disconnected } in
      let w₁ : World = record w { conns = set w.conns k.proxy c₁ } in
      let step : remove_connect sys k.proxy_fd w
          ≡ (removal k.tunnel k.proxy k.proxy_fd
                >> modify (λ w. record w { conn_count = w.conn_count -ℤ pos 1 }))
              w₁ =
        unfold remove_connect has_proxy removal in
        ground (arith, r.entry, i.pair, i.fd, i.type, h.signed) in
      rw step (
        >>=-Returns (λ q. IsEnded k q.1) _ (removal k.tunnel k.proxy k.proxy_fd) _ w₁
          (removal-IsEnded k n b t c₁ w₁ r.apart (ground (arith, r.apart))
            (rw (==_refl k.proxy) refl) j.kind (ap (λ d. d.crb_it) i.same ∙ h.node)
            (r.nodes ∙ h.nodes) h.conn)
          (λ _ _ m. m))

  ticked-IsRelaying :
      (k : Ends) (s y : List ℕ) (w : World)
      → IsRelaying k s y w
      → IsRelaying k s y (record w { calls = asked_time ∷ w.calls })
  unfolding sent got
  ticked-IsRelaying k s y w r = record {
    apart = r.apart;
    entry = r.entry;
    passage = r.passage;
    nodes = r.nodes;
    arrived = r.arrived;
    local = r.local;
    remote = r.remote;
  }

  -- The clock has gone on by more than the time that a connection may be idle.
  abbrev pub IsLate : ConnRecycleBlock → Type 0
  IsLate b = (cs : List Call) → b.tv_sec + expire_seconds < seconds (sys.now cs)

  crb_scan-remove :
      (k : Ends) (s y : List ℕ) (n : ℕ) (b : ConnRecycleBlock) (c : Connect) (w : World)
      → w.conns k.proxy ≡ some c
      → IsLate b
      → IsWatched k n b
      → IsRelaying k s y w
      → crb_scan sys w
        ≡ (remove_connect sys k.proxy_fd >> skip) (record w { calls = asked_time ∷ w.calls })
  unfolding crb_scan scan_from scan_expired gettimeofday
  crb_scan-remove k s y n b c w e l h r =
      let i : IsProxy k c = subst (Returns _) e r.local in
      let late = l (asked_time ∷ w.calls) in
      let nodes = r.nodes ∙ h.nodes in
      let same : b.traffic ≡ c.http_transmit_len =
        h.traffic ∙ sym (ap (λ d. d.http_transmit_len) i.same) in
      ground (arith, late, nodes, same, r.entry, h.fd)

  crb_scan-IsEnded :
      (k : Ends) (s y : List ℕ) (n : ℕ) (b : ConnRecycleBlock) (w : World)
      → IsLate b
      → IsWatched k n b
      → IsRelaying k s y w
      → Returns (λ q. IsEnded k q.1) (crb_scan sys w)
  crb_scan-IsEnded k s y n b w l h r = elim (Option-cases (w.conns k.proxy)) [
    | inl e ↦ absurd (subst (Returns _) e r.local)
    | inr (c, e) ↦ elim (Option-cases (w.conns k.tunnel)) [
      | inl e' ↦ absurd (subst (Returns _) e' r.remote)
      | inr (t, e') ↦ rw (crb_scan-remove k s y n b c w e l h r) (
          >>=-Returns (λ q. IsEnded k q.1) _ (remove_connect sys k.proxy_fd) _
            (record w { calls = asked_time ∷ w.calls })
            (remove_connect-IsEnded k s y n b t c (record w { calls = asked_time ∷ w.calls }) e' e h
              (ticked-IsRelaying k s y w r))
            (λ _ _ m. m))
    ]
  ]

  -- A download is cut off while it goes on: whatever has been received and passed on, the next scan
  -- later than 12 seconds deletes both ends, because it looks at the counter of the local program's
  -- connection, which no download changes. Conditions: the download is set up, the recycler watches
  -- this connection only and has its counter, a write takes at most what it is given, chunks have
  -- between 1 and 4096 bytes, and the clock is more than 12 seconds past the block's time.
  pub run-IsEnded :
      ((cs : List Call) (fd n m : ℕ) → sys.write cs fd n ≡ some m → m ≤ n)
      → (k : Ends) (s y : List ℕ) (n : ℕ) (b : ConnRecycleBlock) (es : List Event) (w : World)
      → IsLate b
      → IsWatched k n b
      → All IsArrival es
      → IsRelaying k s y w
      → Returns (λ q. IsEnded k q.1) ((run sys k es >> crb_scan sys) w)
  run-IsEnded ok k s y n b es w l h a r =
      >>=-Returns (λ q. Moved k s y q.1) _ (run sys k es) _ w (run-Moved sys ok k s y es w a r)
        (λ _ v m. crb_scan-IsEnded k (s ++ m.0) (y ++ m.0) n b v l h m.1)
