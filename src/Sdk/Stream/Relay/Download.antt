-- ===== src/Sdk/Stream/Relay/Download.antt =====
-- Chunks that arrive at a tunnel that forwards: `StreamRecvEvent` of sdk/sdk/ConnectMgr.cpp.
use https_tunnel_proxy.Base.{
  ℕ, ◌-◌, ◌≤◌, ◌<◌, ◌≡◌, ◌≢◌, refl, subst, ap, ◌∙◌, inl, inr, List, [], ◌∷◌, ◌++◌, some, arith,
  length, take, drop, append_assoc, append-nil, take_all, dec_lt, take-append-drop, Returns,
  Option-cases, ==_refl,
}
use https_tunnel_proxy.Tms.World.{sta_hangup}
use https_tunnel_proxy.Sdk.World.{Connect, System, World, Call, buff_size, wrote, epoll_del}
use https_tunnel_proxy.Sdk.Connection.{control, count, write, remove_event}
use https_tunnel_proxy.Sdk.Stream.Fill.{length-fill, take-fill, filled, taken_in}
use https_tunnel_proxy.Sdk.Stream.{Round, more, taken, stream_round, download}
use https_tunnel_proxy.Sdk.Stream.Relay.{
  sent, got, Ends, IsTunnel, IsProxy, pending, IsRelaying, take-drop, remote_at, sent-append,
  changed, changed-IsRelaying, taken_le,
}

-- How a round ends: after `more` the tunnel is not hung up.
pub record Goes (k : Ends) (s y : List ℕ) (q : Round × World) : Type 0 where
  pub relays : IsRelaying k s y q.1
  pub reads : q.0 ≡ more → Returns (λ t. t.status ≢ sta_hangup) (q.1.conns k.tunnel)

-- A tunnel that keeps what is behind the first `j` bytes of a chunk.
abbrev keep : ℕ → ℕ → Connect → Connect
keep n j t = record t { r_data_len = n - j; r_offset = j; status = sta_hangup }

sent_all :
    (k : Ends) (s bs y : List ℕ) (t : Connect) (w : World) (cs : List Call)
    → w.conns k.tunnel ≡ some t
    → t.status ≢ sta_hangup
    → sent k.proxy_fd cs ≡ sent k.proxy_fd w.calls ++ bs
    → got k.tunnel_fd cs ≡ got k.tunnel_fd w.calls
    → IsRelaying k s y w
    → IsRelaying k (s ++ bs) y (record w { calls = cs })
sent_all k s bs y t w cs e f g v r =
    let (i, a) = remote_at k s y t w e r in
    let p : pending t ≡ [] = ground arith in
    let b : sent k.proxy_fd cs ++ pending t ≡ s ++ bs =
      rw p (append-nil _ ∙ sent-append k s bs t w cs f g a) in
    record {
      apart = r.apart;
      entry = r.entry;
      passage = r.passage;
      nodes = r.nodes;
      arrived = v ∙ r.arrived;
      local = r.local;
      remote = rw e (i, b);
    }

keep-IsTunnel :
    (k : Ends) (t : Connect) (n j : ℕ)
    → j < n
    → n ≤ buff_size
    → IsTunnel k t
    → IsTunnel k (keep n j t)
keep-IsTunnel k t n j h l i = record {
  forwards = i.forwards;
  kind = i.kind;
  pair = i.pair;
  fd = i.fd;
  size = i.size;
  keeps = λ _. (omega arith, omega arith);
  starts = λ ne. absurd (ne refl);
}

sent_part :
    (k : Ends) (s bs y : List ℕ) (t : Connect) (w : World) (cs : List Call) (j : ℕ)
    → w.conns k.tunnel ≡ some t
    → t.status ≢ sta_hangup
    → take (length bs) t.r_buff ≡ bs
    → length bs ≤ buff_size
    → j < length bs
    → sent k.proxy_fd cs ≡ sent k.proxy_fd w.calls ++ take j bs
    → got k.tunnel_fd cs ≡ got k.tunnel_fd w.calls
    → IsRelaying k s y w
    → IsRelaying k (s ++ bs) y (changed k (keep (length bs) j t) cs w)
sent_part k s bs y t w cs j e f l z h g v r =
    let (i, a) = remote_at k s y t w e r in
    let p : pending (keep (length bs) j t) ≡ drop j bs =
      take-drop j (length bs) t.r_buff (omega arith) ∙ ap (drop j) l in
    let b : sent k.proxy_fd cs ++ drop j bs ≡ s ++ bs =
      ap (λ y. y ++ drop j bs) (sent-append k s (take j bs) t w cs f g a)
      ∙ append_assoc s (take j bs) (drop j bs)
      ∙ ap (◌++◌ s) (take-append-drop j bs) in
    changed-IsRelaying k s (s ++ bs) y (keep (length bs) j t) w cs
      (keep-IsTunnel k t (length bs) j h z i) (rw p b) v r

module _ (sys : System)
    (ok : (cs : List Call) (fd n m : ℕ) → sys.write cs fd n ≡ some m → m ≤ n) where
  download-part :
      (k : Ends) (s bs y : List ℕ) (t c : Connect) (w : World)
      → w.conns k.tunnel ≡ some t
      → w.conns k.proxy ≡ some c
      → t.status ≢ sta_hangup
      → take (length bs) t.r_buff ≡ bs
      → length bs ≤ buff_size
      → taken (sys.write w.calls c.sock_fd (length bs)) < length bs
      → IsRelaying k s y w
      → Returns (Goes k (s ++ bs) y) (download sys k.tunnel t k.proxy (length bs) w)
  unfolding download remove_event control write sent got changed
  download-part k s bs y t c w e e' f l z h r =
      let i : IsProxy k c = subst (Returns _) e' r.local in
      let n = sys.write w.calls c.sock_fd (length bs) in
      let cs : List Call = wrote c.sock_fd bs n ∷ w.calls in
      let g : sent k.proxy_fd cs ≡ sent k.proxy_fd w.calls ++ take (taken n) bs =
        ground (arith, i.fd) in
      let a = sent_part k s bs y t w cs (taken n) e f l z h g refl r in
      let b = sent_part k s bs y t w (epoll_del t.sock_fd 1 ∷ cs) (taken n) e f l z h g refl r in
      ground (arith, a, b, e', l)

  download-all :
      (k : Ends) (s bs y : List ℕ) (t c : Connect) (w : World)
      → w.conns k.tunnel ≡ some t
      → w.conns k.proxy ≡ some c
      → t.status ≢ sta_hangup
      → take (length bs) t.r_buff ≡ bs
      → taken (sys.write w.calls c.sock_fd (length bs)) ≡ length bs
      → IsRelaying k s y w
      → Returns (Goes k (s ++ bs) y) (download sys k.tunnel t k.proxy (length bs) w)
  unfolding download write sent got
  download-all k s bs y t c w e e' f l z r =
      let i : IsProxy k c = subst (Returns _) e' r.local in
      let n = sys.write w.calls c.sock_fd (length bs) in
      let cs : List Call = wrote c.sock_fd bs n ∷ w.calls in
      let u : take (taken n) bs ≡ bs = take_all bs (taken n) (ground arith) in
      let g : sent k.proxy_fd cs ≡ sent k.proxy_fd w.calls ++ bs = ground (arith, i.fd, u) in
      let a = sent_all k s bs y t w cs e f g refl r in ground (arith, a, e', l)

  download-IsRelaying :
      (k : Ends) (s bs y : List ℕ) (t : Connect) (w : World)
      → w.conns k.tunnel ≡ some t
      → t.status ≢ sta_hangup
      → take (length bs) t.r_buff ≡ bs
      → length bs ≤ buff_size
      → IsRelaying k s y w
      → Returns (Goes k (s ++ bs) y) (download sys k.tunnel t k.proxy (length bs) w)
  download-IsRelaying k s bs y t w e f l z r = elim (Option-cases (w.conns k.proxy)) [
    | inl e' ↦ absurd (subst (Returns _) e' r.local)
    | inr (c, e') ↦ elim (dec_lt (taken (sys.write w.calls c.sock_fd (length bs))) (length bs)) [
      | yes h ↦ download-part k s bs y t c w e e' f l z h r
      | no h ↦
          let u = ok w.calls c.sock_fd (length bs) in
          let v : taken (sys.write w.calls c.sock_fd (length bs)) ≡ length bs =
            omega (arith, taken_le (sys.write w.calls c.sock_fd (length bs)) (length bs) u) in
          download-all k s bs y t c w e e' f l v r
    ]
  ]

  stream_round-download :
      (k : Ends) (bs : List ℕ) (t : Connect) (w : World)
      → w.conns k.tunnel ≡ some t
      → t.status ≢ sta_hangup
      → 0 < length bs
      → length bs ≤ buff_size
      → IsTunnel k t
      → stream_round sys k.tunnel bs w
        ≡ download sys k.tunnel (filled sys bs t) k.proxy (length bs) (taken_in sys k.tunnel bs t w)
  unfolding stream_round count
  stream_round-download k bs t w e f g z i = ground (arith, i.starts, i.forwards, i.pair)

  taken_in-IsRelaying :
      (k : Ends) (s bs y : List ℕ) (t : Connect) (w : World)
      → w.conns k.tunnel ≡ some t
      → t.status ≢ sta_hangup
      → length bs ≤ buff_size
      → IsRelaying k s y w
      → IsRelaying k s (y ++ bs) (taken_in sys k.tunnel bs t w)
  unfolding sent got
  taken_in-IsRelaying k s bs y t w e f z r =
      let (i, a) = remote_at k s y t w e r in
      let o = i.starts f in
      let b : IsTunnel k (filled sys bs t) = record {
        forwards = i.forwards;
        kind = i.kind;
        pair = i.pair;
        fd = i.fd;
        size = rw o (length-fill bs t.r_buff z i.size);
        keeps = λ h. absurd (f h);
        starts = i.starts;
      } in
      let p : pending t ≡ [] = ground arith in
      let q : pending (filled sys bs t) ≡ [] = ground arith in
      record {
        apart = r.apart;
        entry = r.entry;
        passage = r.passage;
        nodes = r.nodes;
        arrived = ground (arith, i.fd, r.arrived);
        local = ground (arith, r.apart, r.local);
        remote =
            rw (==_refl k.tunnel) (b, rw q (subst (λ y. sent k.proxy_fd w.calls ++ y ≡ s) p a));
      }

  -- A chunk that arrives at a tunnel that is not hung up.
  pub stream_round-IsRelaying :
      (k : Ends) (s bs y : List ℕ) (t : Connect) (w : World)
      → w.conns k.tunnel ≡ some t
      → t.status ≢ sta_hangup
      → 0 < length bs
      → length bs ≤ buff_size
      → IsRelaying k s y w
      → Returns (Goes k (s ++ bs) (y ++ bs)) (stream_round sys k.tunnel bs w)
  stream_round-IsRelaying k s bs y t w e f g z r =
      let (i, a) = remote_at k s y t w e r in
      let o = i.starts f in
      rw (stream_round-download k bs t w e f g z i) (
        download-IsRelaying k s bs (y ++ bs) (filled sys bs t) (taken_in sys k.tunnel bs t w)
          (rw (==_refl k.tunnel) refl) f (rw o (take-fill bs t.r_buff)) z
          (taken_in-IsRelaying k s bs y t w e f z r))
