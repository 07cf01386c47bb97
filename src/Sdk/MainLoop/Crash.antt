-- ===== src/Sdk/MainLoop/Crash.antt =====
-- Two reports for the two ends of one stream in a round of the loop, sdk/sdk/SdkMainloop.cpp.
use https_tunnel_proxy.Base.{
  ℕ, ◌^◌, ◌<◌, ◌≡◌, ◌≢◌, refl, ap, ◌∙◌, inl, inr, Bool, ◌&&◌, true, false, List, [], ◌∷◌, none,
  some, arith, Returns, Returns-map, Option-cases, subst, ==_refl, ◌==◌, if◌then◌else◌,
}
use https_tunnel_proxy.Base.Int.{pos, ◌-ℤ◌}
use https_tunnel_proxy.Base.State.{◌>>=◌, ◌>>◌, pure, skip, modify, >>=-Returns}
use https_tunnel_proxy.Tms.World.{set, unset}
use https_tunnel_proxy.Sdk.World.{
  Connect, ConnRecycleBlock, System, World, at, t_proxy, sta_disconnected,
}
use https_tunnel_proxy.Sdk.World.Action.{Action}
use https_tunnel_proxy.Sdk.Connection.{
  remove_connect, has_proxy, delete_peer, delete_connect, erase_conn,
}
use https_tunnel_proxy.Sdk.Stream.{handle_epo_event, recv_loop}
use https_tunnel_proxy.Sdk.Stream.Relay.{Ends, IsProxy, IsRelaying, remote_at}
use https_tunnel_proxy.Sdk.Stream.Relay.Run.{
  forgotten, forgotten-IsRelaying, handle_recv_event-loop,
}
use https_tunnel_proxy.Sdk.Stream.Relay.Watched.{
  IsWatched, delete_connect-tunnel, delete_connect-proxy,
}
use https_tunnel_proxy.Sdk.MainLoop.{Report, closed, on_writable, on_readable, on_report}

-- The tunnel has been closed by the proxy server, and the local program can be written to.
abbrev pub closing : Ends → Report
closing k = record { fd = k.tunnel_fd; readable = some ([], closed); writable = false }

abbrev pub writing : Ends → Report
writing k = record { fd = k.proxy_fd; readable = none; writable = true }

-- Both connections are deleted, and neither descriptor is entered.
abbrev pub IsRemoved : Ends → World → Type 0
IsRemoved k w =
    (w.conns k.tunnel ≡ none)
    × (w.conns k.proxy ≡ none)
    × (w.conn_map k.proxy_fd ≡ none)
    × (w.conn_map k.tunnel_fd ≡ none)

-- The look at a descriptor that can be written to fails and leaves a null pointer entered for it,
-- and `RemoveConnect`, called then, does not return.
abbrev pub EntersNull : System → ℕ → World → Type 0
EntersNull sys fd w =
    Returns
      (λ r. (r.0 ≡ false) × (r.1.conn_map fd ≡ some none) × (remove_connect sys fd r.1 ≡ none))
      (handle_epo_event sys fd w)

handle_epo_event-EntersNull :
    (sys : System) (fd : ℕ) (w : World) → fd < 2 ^ 63 → w.conn_map fd ≡ none → EntersNull sys fd w
unfolding handle_epo_event remove_connect
handle_epo_event-EntersNull sys fd w h e = ground (arith, ==_refl fd)

on_writable_gone :
    (sys : System) (fd : ℕ) (w : World)
    → fd < 2 ^ 63
    → w.conn_map fd ≡ none
    → on_writable sys fd w ≡ none
unfolding on_writable handle_epo_event remove_connect
on_writable_gone sys fd w h e = ground arith

stops :
    (m : Action Bool) (r f : Action (Unit {0})) (w v : World)
    → m w ≡ (r >> pure false) v
    → (m >>= λ g. if g && false then f else skip) w ≡ (r >> skip) v
stops m r f w v e = elim (Option-cases (r v)) [
  | inl h ↦ ground (arith, e)
  | inr (q, h) ↦ ground (arith, e)
]

module _ (sys : System) where
  -- What `RemoveConnect` does from the tunnel's side once it has marked it.
  removal : ℕ → ℕ → ℕ → ℕ → Action (Unit {0})
  removal p pfd q fd =
      ((erase_conn pfd >> delete_connect sys p) >> erase_conn fd) >> delete_connect sys q

  removal-IsRemoved :
      (k : Ends) (n : ℕ) (b : ConnRecycleBlock) (t c : Connect) (w : World)
      → k.tunnel ≢ k.proxy
      → w.conns k.tunnel ≡ some t
      → w.conns k.proxy ≡ some c
      → t.type ≢ t_proxy
      → c.crb_it ≡ at n
      → w.expire_list ≡ record { id = n; block = b } ∷ []
      → b.conn ≡ some k.proxy
      → Returns (λ q. IsRemoved k q.1) (removal k.proxy k.proxy_fd k.tunnel k.tunnel_fd w)
  unfolding removal
  removal-IsRemoved k n b t c w d e e' f g h i =
      let w₁ : World = record w { conn_map = unset w.conn_map k.proxy_fd } in
      >>=-Returns
        (λ v.
          (v.1.conns k.tunnel ≡ some t)
          × (v.1.conns k.proxy ≡ none)
          × (v.1.conn_map k.proxy_fd ≡ none)
          × (v.1.conn_map k.tunnel_fd ≡ none))
        _ ((erase_conn k.proxy_fd >> delete_connect sys k.proxy) >> erase_conn k.tunnel_fd) _ w
        (>>=-Returns
          (λ v.
            (v.1.conns k.proxy ≡ none)
            × (v.1.conn_map ≡ w₁.conn_map)
            × (v.1.conns k.tunnel ≡ w₁.conns k.tunnel))
          _ (delete_connect sys k.proxy) _ w₁
          (delete_connect-proxy sys k.proxy k.tunnel n b c w₁ d e' g h i)
          (λ _ v m.
            (m.2 ∙ e, m.0, rw m.1 (ground arith), rw m.1 (ground (arith, ==_refl k.tunnel_fd)))))
        (λ _ v m.
          Returns-map
            (λ q.
              (q.1.conns ≡ unset v.conns k.tunnel)
              × (q.1.conn_map ≡ v.conn_map)
              × (q.1.expire_list ≡ v.expire_list))
            (λ q. IsRemoved k q.1) (delete_connect sys k.tunnel v)
            (λ q o. (
              rw o.0 (rw (==_refl k.tunnel) refl),
              rw o.0 (ground (arith, m.1)),
              ap (λ f. f k.proxy_fd) o.1 ∙ m.2,
              ap (λ f. f k.tunnel_fd) o.1 ∙ m.3,
            ))
            (delete_connect-tunnel sys k.tunnel t v m.0 f))

  remove_connect-IsRemoved :
      (k : Ends) (s y : List ℕ) (n : ℕ) (b : ConnRecycleBlock) (t c : Connect) (w : World)
      → k.tunnel_fd < 2 ^ 63
      → w.conns k.tunnel ≡ some t
      → w.conns k.proxy ≡ some c
      → IsWatched k n b
      → IsRelaying k s y w
      → Returns (λ q. IsRemoved k q.1) (remove_connect sys k.tunnel_fd w)
  remove_connect-IsRemoved k s y n b t c w l e e' h r =
      let i : IsProxy k c = subst (Returns _) e' r.local in
      let (j, a) = remote_at k s y t w e r in
      let t₁ = record t { status = sta_disconnected } in
      let w₁ : World = record w { conns = set w.conns k.tunnel t₁ } in
      let ne = r.apart in
      let step : remove_connect sys k.tunnel_fd w
          ≡ (removal k.proxy k.proxy_fd k.tunnel k.tunnel_fd
                >> modify (λ w. record w { conn_count = w.conn_count -ℤ pos 1 }))
              w₁ =
        unfold remove_connect has_proxy delete_peer removal in
        ground (arith, ne, r.passage, j.pair, j.fd, j.kind, i.fd, i.type) in
      rw step (
        >>=-Returns (λ q. IsRemoved k q.1) _ (removal k.proxy k.proxy_fd k.tunnel k.tunnel_fd) _ w₁
          (removal-IsRemoved k n b t₁ c w₁ r.apart (rw (==_refl k.tunnel) refl) (ground (arith, ne))
            j.kind (ap (λ d. d.crb_it) i.same ∙ h.node) (r.nodes ∙ h.nodes) h.conn)
          (λ _ _ m. m))

  on_readable-closed :
      (k : Ends) (s y : List ℕ) (t : Connect) (w : World)
      → w.conns k.tunnel ≡ some t
      → IsRelaying k s y w
      → on_readable sys k.tunnel_fd [] closed w
        ≡ (remove_connect sys k.tunnel_fd >> pure false) (forgotten sys k t w)
  unfolding on_readable recv_loop
  on_readable-closed k s y t w e r =
      let step = handle_recv_event-loop sys k s y t [] w e r in rw (step, ◌>>=◌) refl

  on_report-closing :
      (k : Ends) (s y : List ℕ) (m_socket : ℕ) (t : Connect) (w : World)
      → k.tunnel_fd ≢ m_socket
      → w.conns k.tunnel ≡ some t
      → IsRelaying k s y w
      → on_report sys m_socket (closing k) w
        ≡ (remove_connect sys k.tunnel_fd >> skip) (forgotten sys k t w)
  unfolding on_report
  on_report-closing k s y m_socket t w d e r =
      let step = on_readable-closed k s y t w e r in
      let ne : (k.tunnel_fd == m_socket) ≡ false = ground arith in
      let after =
        stops (on_readable sys k.tunnel_fd [] closed) (remove_connect sys k.tunnel_fd)
          (on_writable sys k.tunnel_fd) w (forgotten sys k t w) step in
      rw (ne, on_report, ◌>>=◌) after

  -- The library reads through a null pointer when one stream is reported twice in a round. The report
  -- of the end of its tunnel deletes both connections and takes both descriptors out of the map. The
  -- report that the local program can be written to then enters a null pointer for its descriptor and
  -- fails, `RemoveConnect` does not return from that entry, and so neither does the report. Conditions:
  -- a download is set up on the stream, the recycler watches this stream only, and both descriptors
  -- are below 2 ^ 63 and not the listening socket's.
  pub on_report_twice :
      (k : Ends) (s y : List ℕ) (m_socket n : ℕ) (b : ConnRecycleBlock) (w : World)
      → k.tunnel_fd < 2 ^ 63
      → k.tunnel_fd ≢ m_socket
      → IsWatched k n b
      → IsRelaying k s y w
      → Returns
          (λ q.
            IsRemoved k q.1
            × EntersNull sys k.proxy_fd q.1
            × (on_report sys m_socket (writing k) q.1 ≡ none))
          (on_report sys m_socket (closing k) w)
  on_report_twice k s y m_socket n b w l d h r = elim (Option-cases (w.conns k.proxy)) [
    | inl e ↦ absurd (subst (Returns _) e r.local)
    | inr (c, e) ↦ elim (Option-cases (w.conns k.tunnel)) [
      | inl e' ↦ absurd (subst (Returns _) e' r.remote)
      | inr (t, e') ↦ rw (on_report-closing k s y m_socket t w d e' r) (
          >>=-Returns (λ q. IsRemoved k q.1) _ (remove_connect sys k.tunnel_fd) _
            (forgotten sys k t w)
            (remove_connect-IsRemoved k s y n b (record t { host = [] }) c (forgotten sys k t w) l
              (rw (==_refl k.tunnel) refl) (ground (arith, r.apart)) h
              (forgotten-IsRelaying sys k s y t w e' r))
            (λ _ v m. (
              m,
              handle_epo_event-EntersNull sys k.proxy_fd v h.signed m.2,
              unfold on_report in on_writable_gone sys k.proxy_fd v h.signed m.2,
            )))
    ]
  ]
