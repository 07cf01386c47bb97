-- ===== src/Sdk/Stream/Relay/Run.antt =====
-- A whole download through the client: `HandleRecvEvent` on the tunnel and `HandleEPOEvent` on the local
-- program's connection, in any order, sdk/sdk/ConnectMgr.cpp.
use https_tunnel_proxy.Base.{
  ℕ, ◌≤◌, ◌<◌, ◌≡◌, ◌≢◌, refl, sym, subst, inl, inr, List, [], ◌∷◌, ◌++◌, some, arith, length,
  append_assoc, append-nil, Returns, Returns-map, Option-cases, Bool-cases, ◌==◌, if◌then◌else◌,
  ==_refl, All,
}
use https_tunnel_proxy.Base.State.{pure, skip, ◌>>=◌, ◌>>◌, >>=-Returns}
use https_tunnel_proxy.Tms.World.{set, sta_hangup}
use https_tunnel_proxy.Sdk.World.{Connect, System, World, Call, buff_size}
use https_tunnel_proxy.Sdk.World.Action.{Action, conn_at}
use https_tunnel_proxy.Sdk.Stream.{
  Round, more, again, failed, recv_loop, stream_round, stream_recv_event, handle_epo_event, flush,
}
use https_tunnel_proxy.Sdk.Proxy.{handle_recv_event}
use https_tunnel_proxy.Sdk.Stream.Relay.{
  Ends, IsProxy, IsRelaying, remote_at, changed, changed-IsRelaying,
}
use https_tunnel_proxy.Sdk.Stream.Relay.Download.{Goes, stream_round-IsRelaying}
use https_tunnel_proxy.Sdk.Stream.Relay.Flush.{flush-IsRelaying}

-- What happens to a download: chunks that `recv` gives from the tunnel, or room in the socket of the
-- local program.
pub data Event : Type 0 where
  arrives : List (List ℕ) → Event
  writable : Event

-- A tunnel that is hung up is not reported by the event centre.
unfoldable pub on_event : System → Ends → Event → Action (Unit {0})
unfolding handle_recv_event handle_epo_event
on_event sys k (arrives bss) = do
  t ← conn_at k.tunnel
  if t.status == sta_hangup then skip else (handle_recv_event sys k.tunnel_fd bss >> skip)
on_event sys k writable = handle_epo_event sys k.proxy_fd >> skip

unfoldable pub run : System → Ends → List Event → Action (Unit {0})
unfolding on_event
run sys k [] = skip
run sys k (e ∷ es) = on_event sys k e >> run sys k es

-- A chunk as `recv` gives it.
abbrev pub IsChunk : List ℕ → Type 0
IsChunk bs = (0 < length bs) × (length bs ≤ buff_size)

abbrev pub IsArrival : Event → Type 0
IsArrival (arrives bss) = All IsChunk bss
IsArrival writable = Unit

-- Some bytes more have been received, and got to the local program or are kept for it.
abbrev pub Moved : Ends → List ℕ → List ℕ → World → Type 0
Moved k s y w = (r : List ℕ) × IsRelaying k (s ++ r) (y ++ r) w

stays : (k : Ends) (s y : List ℕ) (w : World) → IsRelaying k s y w → Moved k s y w
stays k s y w r = (
  [],
  subst (λ u. IsRelaying k u (y ++ []) w) (sym (append-nil s))
      (subst (λ u. IsRelaying k s u w) (sym (append-nil y)) r),
)

moves : (k : Ends) (s y a : List ℕ) (w : World) → Moved k (s ++ a) (y ++ a) w → Moved k s y w
moves k s y a w (b, r) = (
  a ++ b,
  subst (λ u. IsRelaying k u (y ++ (a ++ b)) w) (append_assoc s a b)
      (subst (λ u. IsRelaying k ((s ++ a) ++ b) u w) (append_assoc y a b) r),
)

module _ (sys : System) where
  -- `HandleRecvEvent` forgets the host first.
  abbrev pub forgotten : Ends → Connect → World → World
  forgotten k t w = record w { conns = set w.conns k.tunnel (record t { host = [] }) }

  pub handle_recv_event-loop :
      (k : Ends) (s y : List ℕ) (t : Connect) (bss : List (List ℕ)) (w : World)
      → w.conns k.tunnel ≡ some t
      → IsRelaying k s y w
      → handle_recv_event sys k.tunnel_fd bss w
        ≡ recv_loop (stream_round sys k.tunnel) bss (forgotten k t w)
  unfolding handle_recv_event stream_recv_event
  handle_recv_event-loop k s y t bss w e r =
      let (i, a) = remote_at k s y t w e r in ground (arith, r.passage, i.kind)

  pub forgotten-IsRelaying :
      (k : Ends) (s y : List ℕ) (t : Connect) (w : World)
      → w.conns k.tunnel ≡ some t
      → IsRelaying k s y w
      → IsRelaying k s y (forgotten k t w)
  unfolding changed
  forgotten-IsRelaying k s y t w e r =
      let (i, a) = remote_at k s y t w e r in
      changed-IsRelaying k s s y (record t { host = [] }) w w.calls
        (record {
          forwards = i.forwards;
          kind = i.kind;
          pair = i.pair;
          fd = i.fd;
          size = i.size;
          keeps = i.keeps;
          starts = i.starts;
        })
        a refl r

module _ (sys : System)
    (ok : (cs : List Call) (fd n m : ℕ) → sys.write cs fd n ≡ some m → m ≤ n) where
  after_round :
      (k : Ends) (s y bs : List ℕ) (bss : List (List ℕ))
      → ((w : World)
          → Returns (λ t. t.status ≢ sta_hangup) (w.conns k.tunnel)
          → IsRelaying k (s ++ bs) (y ++ bs) w
          → Returns
              (λ q. Moved k (s ++ bs) (y ++ bs) q.1)
              (recv_loop (stream_round sys k.tunnel) bss w))
      → (a : Round) (w : World) → Goes k (s ++ bs) (y ++ bs) (a, w)
      → Returns
          (λ q. Moved k s y q.1)
          ((elim a as (λ _. Action (Round × List (List ℕ))) [
            | more ↦ recv_loop (stream_round sys k.tunnel) bss
            | again ↦ pure (again, bss)
            | failed ↦ pure (failed, bss)
          ])
            w)
  after_round k s y bs bss h more w g =
      Returns-map (λ q. Moved k (s ++ bs) (y ++ bs) q.1) _
        (recv_loop (stream_round sys k.tunnel) bss w) (λ q m. moves k s y bs q.1 m)
        (h w (g.reads refl) g.relays)
  after_round k s y bs bss h again w g = moves k s y bs w (stays k (s ++ bs) (y ++ bs) w g.relays)
  after_round k s y bs bss h failed w g = moves k s y bs w (stays k (s ++ bs) (y ++ bs) w g.relays)

  recv_loop-Moved :
      (k : Ends) (s y : List ℕ) (bss : List (List ℕ)) (w : World)
      → All IsChunk bss
      → Returns (λ t. t.status ≢ sta_hangup) (w.conns k.tunnel)
      → IsRelaying k s y w
      → Returns (λ q. Moved k s y q.1) (recv_loop (stream_round sys k.tunnel) bss w)
  unfolding recv_loop
  recv_loop-Moved k s y [] w c f r = stays k s y w r
  recv_loop-Moved k s y (bs ∷ bss) w c f r = elim (Option-cases (w.conns k.tunnel)) [
    | inl e ↦ absurd (subst (Returns _) e f)
    | inr (t, e) ↦
        >>=-Returns (Goes k (s ++ bs) (y ++ bs)) _ (stream_round sys k.tunnel bs) _ w
          (stream_round-IsRelaying sys ok k s bs y t w e (subst (Returns _) e f) c.0.0 c.0.1 r)
          (λ a w' g.
            after_round k s y bs bss
              (λ v f' r'. recv_loop-Moved k (s ++ bs) (y ++ bs) bss v c.1 f' r') a w' g)
  ]

  on_event-arrives :
      (k : Ends) (s y : List ℕ) (t : Connect) (bss : List (List ℕ)) (w : World)
      → w.conns k.tunnel ≡ some t
      → t.status ≢ sta_hangup
      → IsRelaying k s y w
      → on_event sys k (arrives bss) w
        ≡ (recv_loop (stream_round sys k.tunnel) bss >> skip) (forgotten sys k t w)
  unfolding on_event
  on_event-arrives k s y t bss w e f r =
      ground (arith, handle_recv_event-loop sys k s y t bss w e r)

  on_event-writable :
      (k : Ends) (s y : List ℕ) (t c : Connect) (w : World)
      → w.conns k.tunnel ≡ some t
      → w.conns k.proxy ≡ some c
      → t.status ≡ sta_hangup
      → IsRelaying k s y w
      → on_event sys k writable w ≡ (flush sys k.proxy_fd k.tunnel t >> skip) w
  unfolding on_event handle_epo_event
  on_event-writable k s y t c w e e' f r =
      let (i, a) = remote_at k s y t w e r in
      let j : IsProxy k c = subst (Returns _) e' r.local in
      ground (arith, r.entry, j.pair, j.type, i.keeps)

  on_event-idle :
      (k : Ends) (s y : List ℕ) (t c : Connect) (w : World)
      → w.conns k.tunnel ≡ some t
      → w.conns k.proxy ≡ some c
      → t.status ≢ sta_hangup
      → IsRelaying k s y w
      → on_event sys k writable w ≡ some (tt, w)
  unfolding on_event handle_epo_event
  on_event-idle k s y t c w e e' f r =
      let j : IsProxy k c = subst (Returns _) e' r.local in ground (arith, r.entry, j.pair)

  on_event-Moved :
      (k : Ends) (s y : List ℕ) (t : Connect) (e : Event) (w : World)
      → w.conns k.tunnel ≡ some t
      → IsArrival e
      → IsRelaying k s y w
      → Returns (λ q. Moved k s y q.1) (on_event sys k e w)
  on_event-Moved k s y t (arrives bss) w e c r = elim (Bool-cases (t.status == sta_hangup)) [
    | inl h ↦ let m = stays k s y w r in unfold on_event in ground (arith, m)
    | inr h ↦
        let f : t.status ≢ sta_hangup = ground arith in
        rw (on_event-arrives k s y t bss w e f r) (
          >>=-Returns (λ q. Moved k s y q.1) _ (recv_loop (stream_round sys k.tunnel) bss) _
            (forgotten sys k t w)
            (recv_loop-Moved k s y bss (forgotten sys k t w) c (rw (==_refl k.tunnel) f)
              (forgotten-IsRelaying sys k s y t w e r))
            (λ _ _ m. m))
  ]
  on_event-Moved k s y t writable w e x r = elim (Option-cases (w.conns k.proxy)) [
    | inl e' ↦ absurd (subst (Returns _) e' r.local)
    | inr (c, e') ↦ elim (Bool-cases (t.status == sta_hangup)) [
      | inl h ↦
          let f : t.status ≡ sta_hangup = ground arith in
          rw (on_event-writable k s y t c w e e' f r) (
            >>=-Returns (λ q. IsRelaying k s y q.1) _ (flush sys k.proxy_fd k.tunnel t) _ w
              (flush-IsRelaying sys ok k s y t w e f r) (λ _ v m. stays k s y v m))
      | inr h ↦
          let f : t.status ≢ sta_hangup = ground arith in
          rw (on_event-idle k s y t c w e e' f r) (stays k s y w r)
    ]
  ]

  -- No byte of a download is lost, repeated or taken out of its order: whatever chunks arrive and
  -- whenever the local program can be written to, what it got, with what is kept for it, grows by
  -- the bytes that have been received. Conditions: the download is set up, a write takes at most what
  -- it is given, chunks have between 1 and 4096 bytes, and the tunnel is not read while it is hung up.
  pub run-Moved :
      (k : Ends) (s y : List ℕ) (es : List Event) (w : World)
      → All IsArrival es
      → IsRelaying k s y w
      → Returns (λ q. Moved k s y q.1) (run sys k es w)
  unfolding run
  run-Moved k s y [] w c r = stays k s y w r
  run-Moved k s y (e ∷ es) w c r = elim (Option-cases (w.conns k.tunnel)) [
    | inl e' ↦ absurd (subst (Returns _) e' r.remote)
    | inr (t, e') ↦
        >>=-Returns (λ q. Moved k s y q.1) _ (on_event sys k e) _ w
          (on_event-Moved k s y t e w e' c.0 r)
          (λ _ v m.
            Returns-map (λ q. Moved k (s ++ m.0) (y ++ m.0) q.1) _ (run sys k es v)
              (λ q n. moves k s y m.0 q.1 n) (run-Moved k (s ++ m.0) (y ++ m.0) es v c.1 m.1))
  ]
