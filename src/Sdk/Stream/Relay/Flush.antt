-- ===== src/Sdk/Stream/Relay/Flush.antt =====
-- A local program that can be written to again: `HandleEPOEvent` of sdk/sdk/ConnectMgr.cpp.
use https_tunnel_proxy.Base.{
  ℕ, ◌+◌, ◌-◌, ◌≤◌, ◌<◌, ◌≡◌, refl, sym, ap, ◌∙◌, List, [], ◌∷◌, ◌++◌, some, arith, length, take,
  drop, append_assoc, append-nil, take_all, dec_lt, drop-drop, length-drop, length-take, Returns,
}
use Prim.Native.Nat.{bit_or}
use https_tunnel_proxy.Tms.World.{sta_hangup, sta_online, epollin, epollet}
use https_tunnel_proxy.Sdk.World.{
  Connect, System, World, Call, buff_size, ym_ev_wr, wrote, epoll_add,
}
use https_tunnel_proxy.Sdk.Connection.{epoll_flags, control, write, add_r_event, add_event}
use https_tunnel_proxy.Sdk.Stream.{taken, held, flush}
use https_tunnel_proxy.Sdk.Stream.Relay.{
  sent, got, Ends, IsTunnel, pending, IsRelaying, take-take, remote_at, changed, changed-IsRelaying,
  taken_le,
}

length-held :
    (t : Connect)
    → length t.r_buff ≡ buff_size
    → t.r_offset + t.r_data_len ≤ buff_size
    → length (held t) ≡ t.r_data_len
length-held t e h =
    omega
      (arith, length-take t.r_data_len (drop t.r_offset t.r_buff), length-drop t.r_offset t.r_buff)

-- The tunnel after all that it kept has been taken.
abbrev emptied : Connect → Connect
emptied t = record t { r_offset = 0; stillneedtoread = buff_size; status = sta_online }

flush_all :
    (k : Ends) (s y : List ℕ) (t : Connect) (w : World) (cs : List Call)
    → w.conns k.tunnel ≡ some t
    → t.status ≡ sta_hangup
    → (j : ℕ) → length (held t) ≤ j
    → sent k.proxy_fd cs ≡ sent k.proxy_fd w.calls ++ take j (held t)
    → got k.tunnel_fd cs ≡ got k.tunnel_fd w.calls
    → IsRelaying k s y w
    → IsRelaying k s y (changed k (emptied t) cs w)
flush_all k s y t w cs e f j h g v r =
    let (i, a) = remote_at k s y t w e r in
    let p : pending t ≡ held t = ground arith in
    let b : sent k.proxy_fd cs ++ [] ≡ s =
      append-nil _ ∙ g ∙ ap (◌++◌ (sent k.proxy_fd w.calls)) (take_all (held t) j h ∙ sym p) ∙ a in
    let c : IsTunnel k (emptied t) = record {
      forwards = i.forwards;
      kind = i.kind;
      pair = i.pair;
      fd = i.fd;
      size = i.size;
      keeps = λ h. ground arith;
      starts = λ _. refl;
    } in
    changed-IsRelaying k s s y (emptied t) w cs c b v r

-- The tunnel after a part of what it kept has been taken.
abbrev advanced : ℕ → Connect → Connect
advanced j t = record t { r_offset = t.r_offset + j; r_data_len = t.r_data_len - j }

flush_part :
    (k : Ends) (s y : List ℕ) (t : Connect) (w : World) (cs : List Call)
    → w.conns k.tunnel ≡ some t
    → t.status ≡ sta_hangup
    → (j : ℕ) → j < t.r_data_len
    → sent k.proxy_fd cs ≡ sent k.proxy_fd w.calls ++ take j (held t)
    → got k.tunnel_fd cs ≡ got k.tunnel_fd w.calls
    → IsRelaying k s y w
    → IsRelaying k s y (changed k (advanced j t) cs w)
flush_part k s y t w cs e f j h g v r =
    let (i, a) = remote_at k s y t w e r in
    let (h₀, h₁) = i.keeps f in
    let p : pending t ≡ held t = ground arith in
    let q : pending (advanced j t) ≡ held (advanced j t) = ground arith in
    let l = drop t.r_offset t.r_buff in
    let d : held (advanced j t) ≡ take (t.r_data_len - j) (drop j l) =
      ap (take (t.r_data_len - j)) (sym (drop-drop t.r_offset j t.r_buff)) in
    let b : sent k.proxy_fd cs ++ held (advanced j t) ≡ s =
      ap (λ y. y ++ held (advanced j t)) g
      ∙ append_assoc _ (take j (held t)) (held (advanced j t))
      ∙ ap (◌++◌ (sent k.proxy_fd w.calls))
          (ap (◌++◌ (take j (held t))) d ∙ take-take j t.r_data_len l (omega arith) ∙ sym p)
      ∙ a in
    let c : IsTunnel k (advanced j t) = record {
      forwards = i.forwards;
      kind = i.kind;
      pair = i.pair;
      fd = i.fd;
      size = i.size;
      keeps = λ _. (omega arith, omega arith);
      starts = λ ne. absurd (ne f);
    } in
    changed-IsRelaying k s s y (advanced j t) w cs c (rw q b) v r

flush_none :
    (k : Ends) (s y : List ℕ) (t : Connect) (w : World) (cs : List Call)
    → w.conns k.tunnel ≡ some t
    → (j : ℕ) → j ≡ 0
    → sent k.proxy_fd cs ≡ sent k.proxy_fd w.calls ++ take j (held t)
    → got k.tunnel_fd cs ≡ got k.tunnel_fd w.calls
    → IsRelaying k s y w
    → IsRelaying k s y (record w { calls = cs })
flush_none k s y t w cs e j z g v r =
    let (i, a) = remote_at k s y t w e r in
    let b : sent k.proxy_fd cs ≡ sent k.proxy_fd w.calls =
      g ∙ ap (λ j. sent k.proxy_fd w.calls ++ take j (held t)) z ∙ append-nil _ in
    record {
      apart = r.apart;
      entry = r.entry;
      passage = r.passage;
      nodes = r.nodes;
      arrived = v ∙ r.arrived;
      local = r.local;
      remote = rw e (i, ap (λ y. y ++ pending t) b ∙ a);
    }

module _ (sys : System)
    (ok : (cs : List Call) (fd n m : ℕ) → sys.write cs fd n ≡ some m → m ≤ n) where
  pub flush-IsRelaying :
      (k : Ends) (s y : List ℕ) (t : Connect) (w : World)
      → w.conns k.tunnel ≡ some t
      → t.status ≡ sta_hangup
      → IsRelaying k s y w
      → Returns (λ q. IsRelaying k s y q.1) (flush sys k.proxy_fd k.tunnel t w)
  unfolding flush write add_r_event add_event control sent got changed
  flush-IsRelaying k s y t w e f r =
      let (i, a) = remote_at k s y t w e r in
      let (h₀, h₁) = i.keeps f in
      let n = sys.write w.calls k.proxy_fd (length (held t)) in
      let m : length (held t) ≡ t.r_data_len = length-held t i.size h₁ in
      let le = taken_le n (length (held t)) (ok w.calls k.proxy_fd (length (held t))) in
      let cs : List Call = wrote k.proxy_fd (held t) n ∷ w.calls in
      let g : sent k.proxy_fd cs ≡ sent k.proxy_fd w.calls ++ take (taken n) (held t) =
        ground arith in
      elim (dec_lt (taken n) t.r_data_len) [
        | no h ↦
            let u : taken n ≡ t.r_data_len = omega arith in
            let b = flush_all k s y t w cs e f (taken n) (omega arith) g refl r in
            let c =
              flush_all k s y t w (epoll_add t.sock_fd (bit_or epollin epollet) ∷ cs) e f (taken n)
                (omega arith) g refl r in
            ground (arith, b, c)
        | yes h ↦ elim (dec_lt 0 (taken n)) [
          | yes h' ↦ let b = flush_part k s y t w cs e f (taken n) h g refl r in ground (arith, b)
          | no h' ↦
              let z : taken n ≡ 0 = omega arith in
              let b = flush_none k s y t w cs e (taken n) z g refl r in
              let c =
                flush_none k s y t w (epoll_add k.proxy_fd (epoll_flags ym_ev_wr) ∷ cs) e (taken n)
                  z g refl r in
              ground (arith, b, c)
        ]
      ]
