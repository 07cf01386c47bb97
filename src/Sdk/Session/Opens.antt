-- ===== src/Sdk/Session/Opens.antt =====
-- What a successful LOGIN_RSP leaves behind for a local program: the case of `HandleRecvMsg` in
-- sdk/sdk/ConnectMgr.cpp at its addresses.
use https_tunnel_proxy.Base.{
  ℕ, ◌≤◌, ◌<◌, ◌≡◌, ◌≢◌, refl, subst, inl, inr, ◌⊎◌, List, [], ◌∷◌, some, arith, length, take,
  append-nil, Returns, Returns-map, Option-cases, All,
}
use https_tunnel_proxy.Base.State.{>>=-Returns}
use https_tunnel_proxy.Wire.Bytes.{le}
use https_tunnel_proxy.Wire.RespCode
use https_tunnel_proxy.Wire.Messages.{LoginRsp}
use https_tunnel_proxy.Tms.World.{s_forward, sta_hangup}
use https_tunnel_proxy.Sdk.Login.{
  Effect, begin_transmit, request, connection_established, read_again, wake, fail_page,
  on_login_rsp, start, start_proxy,
}
use https_tunnel_proxy.Sdk.World.{Connect, System, World, buff_size, t_proxy}
use https_tunnel_proxy.Sdk.Connection.{send_msg, send_tms_msg, write, count, add_r_event, control}
use https_tunnel_proxy.Sdk.Session.{
  perform, perform_all, note_login_rsp, connect_reply_ok, handle_login_rsp, encode_begin_transmit,
}
use https_tunnel_proxy.Sdk.Stream.Relay.{Ends, IsTunnel, IsProxy, IsRelaying, pending, sent, got}

-- A tunnel and a local program's connection that belong together.
pub record IsPair (k : Ends) (forwards : Connect → Type 0) (w : World) : Type 0 where
  pub apart : k.tunnel ≢ k.proxy
  pub entry : w.conn_map k.proxy_fd ≡ some (some k.proxy)
  pub passage : w.conn_map k.tunnel_fd ≡ some (some k.tunnel)
  pub tunnel :
      Returns
        (λ t.
          (t.type ≢ t_proxy)
          × (t.peer ≡ some k.proxy)
          × (t.sock_fd ≡ k.tunnel_fd)
          × (length t.r_buff ≡ buff_size)
          × (t.status ≢ sta_hangup)
          × forwards t)
        (w.conns k.tunnel)
  pub proxy :
      Returns
        (λ c.
          (c.type ≡ t_proxy)
          × (c.peer ≡ some k.tunnel)
          × (c.sock_fd ≡ k.proxy_fd)
          × (length c.r_buff ≡ buff_size)
          × (c.r_data_len ≤ buff_size))
        (w.conns k.proxy)

abbrev pub IsForwarding : Connect → Type 0
IsForwarding t = (t.cstate ≡ s_forward) × (t.r_offset ≡ 0)

-- What is sent reads no more than the buffer has.
abbrev IsWithin : Effect → Type 0
IsWithin (request n) = n ≤ buff_size
IsWithin _ = Unit

module _ (sys : System) (k : Ends) where
  send_tms_msg-IsPair :
      (msg : List ℕ) (w : World)
      → length msg < 1000
      → IsPair k IsForwarding w
      → Returns (λ q. IsPair k IsForwarding q.1) (send_tms_msg sys k.tunnel msg w)
  unfolding send_tms_msg write count
  send_tms_msg-IsPair msg w h r = ground (arith, r.apart, r.entry, r.passage, r.tunnel, r.proxy)

  send_msg-IsPair :
      (p : ℕ) (msg : List ℕ) (w : World)
      → (p ≡ k.tunnel) ⊎ (p ≡ k.proxy)
      → IsPair k IsForwarding w
      → Returns (λ q. IsPair k IsForwarding q.1) (send_msg sys p msg w)
  unfolding send_msg write count
  send_msg-IsPair p msg w h r = ground (arith, r.apart, r.entry, r.passage, r.tunnel, r.proxy)

  -- Both connections of a pair.
  abbrev IsAt : World → Connect → Connect → Type 0
  IsAt w t c =
      (w.conns k.tunnel ≡ some t)
      × (w.conns k.proxy ≡ some c)
      × (t.type ≢ t_proxy)
      × (t.peer ≡ some k.proxy)
      × (c.peer ≡ some k.tunnel)
      × (c.type ≡ t_proxy)
      × (length c.r_buff ≡ buff_size)
      × (c.r_data_len ≤ buff_size)

  both-IsAt :
      (f : Connect → Type 0) (w : World) → IsPair k f w → (t : Connect) × (c : Connect) × IsAt w t c
  both-IsAt f w r = elim (Option-cases (w.conns k.proxy)) [
    | inl e ↦ absurd (subst (Returns _) e r.proxy)
    | inr (c, e) ↦ elim (Option-cases (w.conns k.tunnel)) [
      | inl e' ↦ absurd (subst (Returns _) e' r.tunnel)
      | inr (t, e') ↦
          let i = subst (Returns _) e r.proxy in
          let j = subst (Returns _) e' r.tunnel in (t, c, (e', e, j.0, j.1, i.1, i.0, i.3, i.4))
    ]
  ]

  perform-IsPair :
      (e : Effect) (w : World)
      → IsWithin e
      → IsPair k IsForwarding w
      → Returns (λ q. IsPair k IsForwarding q.1) (perform sys k.tunnel e w)
  unfolding perform add_r_event control encode_begin_transmit le
  perform-IsPair (begin_transmit id) w h r =
      send_tms_msg-IsPair (encode_begin_transmit id) w (omega arith) r
  perform-IsPair (request n) w h r =
      let (t, c, a) = both-IsAt IsForwarding w r in
      let m = send_msg-IsPair k.tunnel (take n c.r_buff) w (inl refl) r in ground (arith, a, m)
  perform-IsPair connection_established w h r =
      let (t, c, a) = both-IsAt IsForwarding w r in
      let m = send_msg-IsPair k.proxy connect_reply_ok w (inr refl) r in ground (arith, a, m)
  perform-IsPair read_again w h r = ground (arith, r.apart, r.entry, r.passage, r.tunnel, r.proxy)
  perform-IsPair wake w h r = ground (arith, r.apart, r.entry, r.passage, r.tunnel, r.proxy)
  perform-IsPair (fail_page code) w h r =
      ground (arith, r.apart, r.entry, r.passage, r.tunnel, r.proxy)

  perform_all-IsPair :
      (es : List Effect) (w : World)
      → All IsWithin es
      → IsPair k IsForwarding w
      → Returns (λ q. IsPair k IsForwarding q.1) (perform_all sys k.tunnel es w)
  unfolding perform_all
  perform_all-IsPair [] w h r = r
  perform_all-IsPair (e ∷ es) w h r =
      >>=-Returns (λ q. IsPair k IsForwarding q.1) _ (perform sys k.tunnel e) _ w
        (perform-IsPair e w h.0 r) (λ _ v m. perform_all-IsPair es v h.1 m)

  -- A pair whose tunnel forwards is set up for a download.
  abbrev pub ends_of : World → Connect → Ends
  ends_of w c = record {
    tunnel = k.tunnel;
    tunnel_fd = k.tunnel_fd;
    proxy = k.proxy;
    proxy_fd = k.proxy_fd;
    program = c;
    nodes = w.expire_list;
  }

  abbrev pub IsOpen : World → Type 0
  IsOpen w =
      Returns (λ c. IsRelaying (ends_of w c) (sent k.proxy_fd w.calls) (got k.tunnel_fd w.calls) w)
        (w.conns k.proxy)

  IsPair-IsOpen : (w : World) → IsPair k IsForwarding w → IsOpen w
  IsPair-IsOpen w r =
      let (t, c, a) = both-IsAt IsForwarding w r in
      let x = subst (Returns _) a.1 r.proxy in
      let y = subst (Returns _) a.0 r.tunnel in
      let i : IsProxy (ends_of w c) c = record { pair = x.1; fd = x.2; type = x.0; same = refl } in
      let j : IsTunnel (ends_of w c) t = record {
        forwards = y.5.0;
        kind = y.0;
        pair = y.1;
        fd = y.2;
        size = y.3;
        keeps = λ h. absurd (y.4 h);
        starts = λ _. y.5.1;
      } in
      let ne = y.4 in
      let p : pending t ≡ [] = ground (arith, ne) in
      rw a.1 (record {
        apart = r.apart;
        entry = r.entry;
        passage = r.passage;
        nodes = refl;
        arrived = refl;
        local = rw a.1 i;
        remote = rw a.0 (j, rw p (append-nil _));
      })

  note_login_rsp-IsPair :
      (r : LoginRsp) (w : World)
      → r.rsp_code ≡ RespCode.ready
      → IsPair k (λ _. Unit) w
      → Returns
          (λ q. IsPair k IsForwarding q.1 × All IsWithin q.0)
          (note_login_rsp sys k.tunnel r w)
  unfolding note_login_rsp on_login_rsp start start_proxy
  note_login_rsp-IsPair r w h i =
      let (t, c, a) = both-IsAt (λ _. Unit) w i in
      ground (arith, h, a, i.apart, i.entry, i.passage, i.tunnel, i.proxy)

  -- A successful login sets a download up: after the client has handled LOGIN_RSP with the code
  -- READY for the tunnel of a local program, everything that `run-Moved` asks of the two connections
  -- holds. Conditions: the connections are each other's peers, in the map under their descriptors,
  -- with buffers of 4096 bytes, and the tunnel is not hung up.
  pub handle_login_rsp-IsOpen :
      (r : LoginRsp) (w : World)
      → r.rsp_code ≡ RespCode.ready
      → IsPair k (λ _. Unit) w
      → Returns (λ q. IsOpen q.1) (handle_login_rsp sys k.tunnel r w)
  unfolding handle_login_rsp
  handle_login_rsp-IsOpen r w h i =
      >>=-Returns (λ q. IsPair k IsForwarding q.1 × All IsWithin q.0) _
        (note_login_rsp sys k.tunnel r) _ w (note_login_rsp-IsPair r w h i)
        (λ es v m.
          Returns-map (λ q. IsPair k IsForwarding q.1) _ (perform_all sys k.tunnel es v)
            (λ q n. IsPair-IsOpen q.1 n) (perform_all-IsPair es v m.1 m.0))
