-- ===== src/Sdk/Session/Arrives.antt =====
-- A LOGIN_RSP that arrives as the proxy server sends it, through `StreamRecvEvent` and `HandleRecvMsg`
-- of sdk/sdk/ConnectMgr.cpp.
use https_tunnel_proxy.Base.{
  ℕ, ◌+◌, ◌≤◌, ◌≡◌, refl, sym, ap, subst, inl, inr, ◌∙◌, List, [], ◌∷◌, some, arith, length, take,
  drop, take-append, Returns, Option-cases, ==_refl,
}
use https_tunnel_proxy.Base.State.{◌>>=◌, ◌>>◌, pure}
use https_tunnel_proxy.Wire.Bytes.{header, header_size, be16, from_be16, field, from_le, le}
use https_tunnel_proxy.Wire.RespCode
use https_tunnel_proxy.Wire.Messages.{LoginRsp, encode_login_rsp, msg_id}
use https_tunnel_proxy.Wire.RoundTrip.{LoginRspFits, decode-encode_login_rsp}
use https_tunnel_proxy.Tms.World.{set, s_header, s_body}
use https_tunnel_proxy.Sdk.World.{Connect, System, World, buff_size}
use https_tunnel_proxy.Sdk.World.Action.{Action}
use https_tunnel_proxy.Sdk.Connection.{count}
use https_tunnel_proxy.Sdk.Session.{handle_recv_msg, handle_login_rsp}
use https_tunnel_proxy.Sdk.Stream.Fill.{length-fill, filled, taken_in}
use https_tunnel_proxy.Sdk.Stream.{
  Round, more, fill, stream_round, read_header, read_body, recv_loop, stream_recv_event,
}
use https_tunnel_proxy.Sdk.Stream.Relay.{Ends}
use https_tunnel_proxy.Sdk.Session.Opens.{IsPair, IsOpen, handle_login_rsp-IsOpen}

-- The size of a LOGIN_RSP.
abbrev login_rsp_size : ℕ
login_rsp_size = 20

length-encode_login_rsp : (r : LoginRsp) → length (encode_login_rsp r) ≡ login_rsp_size
unfolding encode_login_rsp le
length-encode_login_rsp r = refl

-- The tunnel waits for a header, or for the body of a message of `n` bytes.
abbrev pub IsWaiting : Connect → Type 0
IsWaiting t = (t.cstate ≡ s_header) × (t.stillneedtoread ≡ header_size) × (t.r_offset ≡ 0)

abbrev IsReading : ℕ → Connect → Type 0
IsReading n t = (t.cstate ≡ s_body) × (t.stillneedtoread ≡ n) × (t.r_offset ≡ 0) × (t.h_len ≡ n)

done_more :
    (m : Action (Unit {0})) (w : World) (a : Unit {0}) (u : World)
    → m w ≡ some (a, u)
    → (m >> pure more) w ≡ some (more, u)
done_more m w a u e = rw (e, ◌>>=◌) refl

then_more :
    (m m' : Action (Unit {0})) (w : World) → m w ≡ m' w → (m >> pure more) w ≡ (m' >> pure more) w
then_more m m' w e = rw (e, ◌>>=◌) refl

recv_loop-more :
    (f : List ℕ → Action Round) (bs : List ℕ) (bss : List (List ℕ)) (w u : World)
    → f bs w ≡ some (more, u)
    → recv_loop f (bs ∷ bss) w ≡ recv_loop f bss u
unfolding recv_loop
recv_loop-more f bs bss w u e = rw (e, ◌>>=◌) refl

module _ (sys : System) where
  stream_round-header :
      (p : ℕ) (n : ℕ) (t : Connect) (w : World)
      → w.conns p ≡ some t
      → IsWaiting t
      → stream_round sys p (header n) w
        ≡ read_header p (filled sys (header n) t) (taken_in sys p (header n) t w)
  unfolding stream_round count header be16
  stream_round-header p n t w e h = ground (arith, h)

  stream_round-body :
      (p : ℕ) (bs : List ℕ) (t : Connect) (w : World)
      → w.conns p ≡ some t
      → length bs ≤ buff_size
      → IsReading (length bs) t
      → stream_round sys p bs w ≡ read_body sys p (filled sys bs t) (taken_in sys p bs t w)
  unfolding stream_round count
  stream_round-body p bs t w e l h = ground (arith, h)

  -- The tunnel and the state behind the header of a LOGIN_RSP.
  abbrev reading : Connect → Connect
  reading t = record (filled sys (header login_rsp_size) t) {
    h_len = login_rsp_size;
    cstate = s_body;
    r_offset = 0;
    stillneedtoread = login_rsp_size;
  }

  begun : ℕ → Connect → World → World
  begun p t w =
      let w₁ = taken_in sys p (header login_rsp_size) t w in
      record w₁ { conns = set w₁.conns p (reading t) }

  read_header-more :
      (p : ℕ) (t : Connect) (w : World)
      → t.r_offset ≡ 0
      → read_header p
          (filled sys (header login_rsp_size) t)
          (taken_in sys p (header login_rsp_size) t w)
        ≡ some (more, begun p t w)
  unfolding read_header header be16 from_be16 field from_le begun
  read_header-more p t w h = rw h refl

  -- The same tunnel with another reading state.
  IsPair-changed :
      (k : Ends) (P Q : Connect → Type 0) (t t' : Connect) (w w' : World)
      → w.conns k.tunnel ≡ some t
      → w'.conn_map ≡ w.conn_map
      → w'.conns k.tunnel ≡ some t'
      → w'.conns k.proxy ≡ w.conns k.proxy
      → t'.type ≡ t.type
      → t'.peer ≡ t.peer
      → t'.sock_fd ≡ t.sock_fd
      → t'.status ≡ t.status
      → length t'.r_buff ≡ buff_size
      → Q t'
      → IsPair k P w
      → IsPair k Q w'
  IsPair-changed k P Q t t' w w' e m f g a b c d l q r =
      let x = subst (Returns _) e r.tunnel in
      record {
        apart = r.apart;
        entry = rw m r.entry;
        passage = rw m r.passage;
        tunnel = rw f (λ h. x.0 (sym a ∙ h), b ∙ x.1, c ∙ x.2, l, λ h. x.4 (sym d ∙ h), q);
        proxy = rw g r.proxy;
      }

  handle_recv_msg-login_rsp :
      (p : ℕ) (r : LoginRsp) (w : World)
      → LoginRspFits r
      → handle_recv_msg sys p (encode_login_rsp r) w ≡ handle_login_rsp sys p r w
  unfolding handle_recv_msg encode_login_rsp msg_id field from_le le
  handle_recv_msg-login_rsp p r w h =
      ap (λ x. handle_login_rsp sys p x w) (decode-encode_login_rsp r h)

  -- The tunnel and the state behind the body, where it is handled.
  abbrev waiting : List ℕ → Connect → Connect
  waiting bs t = record (filled sys bs t) {
    cstate = s_header;
    stillneedtoread = header_size;
    r_offset = 0;
  }

  ended : ℕ → List ℕ → Connect → World → World
  ended p bs t w =
      let w₁ = taken_in sys p bs t w in record w₁ { conns = set w₁.conns p (waiting bs t) }

  read_body-handle :
      (p : ℕ) (bs : List ℕ) (t : Connect) (w : World)
      → t.r_offset ≡ 0
      → t.h_len ≡ length bs
      → read_body sys p (filled sys bs t) (taken_in sys p bs t w)
        ≡ (handle_recv_msg sys p bs >> pure more) (ended p bs t w)
  unfolding read_body ended
  read_body-handle p bs t w h l =
      let e : take t.h_len (fill t.r_offset bs t.r_buff) ≡ bs =
        rw (h, l) (take-append bs (drop (0 + length bs) t.r_buff)) in
      ap (λ m. (handle_recv_msg sys p m >> pure more) (ended p bs t w)) e

  begun-IsPair :
      (k : Ends) (t : Connect) (w : World)
      → w.conns k.tunnel ≡ some t
      → IsWaiting t
      → IsPair k IsWaiting w
      → IsPair k (IsReading login_rsp_size) (begun k.tunnel t w)
  unfolding begun
  begun-IsPair k t w e h r =
      let ne = r.apart in
      let x = subst (Returns _) e r.tunnel in
      let l : length (reading t).r_buff ≡ buff_size =
        rw h.2
          (length-fill (header login_rsp_size) t.r_buff (unfold header be16 in omega arith) x.3) in
      IsPair-changed k IsWaiting (IsReading login_rsp_size) t (reading t) w (begun k.tunnel t w) e
        refl (rw (==_refl k.tunnel) refl) (ground (arith, ne)) refl refl refl refl l
        (refl, refl, refl, refl) r

  ended-IsPair :
      (k : Ends) (bs : List ℕ) (t : Connect) (w : World)
      → length bs ≤ buff_size
      → w.conns k.tunnel ≡ some t
      → IsReading (length bs) t
      → IsPair k (IsReading (length bs)) w
      → IsPair k (λ _. Unit) (ended k.tunnel bs t w)
  unfolding ended
  ended-IsPair k bs t w m e h r =
      let ne = r.apart in
      let x = subst (Returns _) e r.tunnel in
      let l : length (waiting bs t).r_buff ≡ buff_size = rw h.2 (length-fill bs t.r_buff m x.3) in
      IsPair-changed k (IsReading (length bs)) (λ _. Unit) t (waiting bs t) w
        (ended k.tunnel bs t w) e refl (rw (==_refl k.tunnel) refl) (ground (arith, ne)) refl refl
        refl refl l tt r

  body-IsOpen :
      (k : Ends) (r : LoginRsp) (t : Connect) (w : World)
      → w.conns k.tunnel ≡ some t
      → r.rsp_code ≡ RespCode.ready
      → LoginRspFits r
      → IsReading login_rsp_size t
      → IsPair k (IsReading login_rsp_size) w
      → Returns
          (λ q. IsOpen sys k q.1)
          (recv_loop (stream_round sys k.tunnel) (encode_login_rsp r ∷ []) w)
  body-IsOpen k r t w e c f h i =
      let bs = encode_login_rsp r in
      let n = length-encode_login_rsp r in
      let h' : IsReading (length bs) t = subst (λ m. IsReading m t) (sym n) h in
      let i' : IsPair k (IsReading (length bs)) w =
        subst (λ m. IsPair k (IsReading m) w) (sym n) i in
      let v = ended k.tunnel bs t w in
      let open' =
        handle_login_rsp-IsOpen sys k r v c (ended-IsPair k bs t w (omega arith) e h' i') in
      let step : stream_round sys k.tunnel bs w ≡ (handle_login_rsp sys k.tunnel r >> pure more) v =
        stream_round-body k.tunnel bs t w e (omega arith) h'
        ∙ read_body-handle k.tunnel bs t w h'.2 h'.3
        ∙ then_more (handle_recv_msg sys k.tunnel bs) (handle_login_rsp sys k.tunnel r) v
            (handle_recv_msg-login_rsp k.tunnel r v f) in
      elim (Option-cases (handle_login_rsp sys k.tunnel r v)) [
        | inl o ↦ absurd (subst (Returns _) o open')
        | inr ((a, u), o) ↦
            rw
              (recv_loop-more (stream_round sys k.tunnel) bs [] w u
                (step ∙ done_more (handle_login_rsp sys k.tunnel r) v a u o))
              (unfold recv_loop in subst (Returns _) o open')
      ]

  -- The LOGIN_RSP with the code READY that the proxy server frames and sends opens the client's
  -- download: header and body arrive at a tunnel that waits for a message, and behind them both
  -- connections are set up. Conditions: the fields of the message fit their widths; the connections
  -- are each other's peers, in the map under their descriptors, with buffers of 4096 bytes; the
  -- tunnel is not hung up; and `recv` gives the header and the body as they are asked for.
  pub stream_recv_event-IsOpen :
      (k : Ends) (r : LoginRsp) (w : World)
      → r.rsp_code ≡ RespCode.ready
      → LoginRspFits r
      → IsPair k IsWaiting w
      → Returns
          (λ q. IsOpen sys k q.1)
          (stream_recv_event sys k.tunnel
            (header (length (encode_login_rsp r)) ∷ encode_login_rsp r ∷ [])
            w)
  unfolding stream_recv_event
  stream_recv_event-IsOpen k r w c f i = elim (Option-cases (w.conns k.tunnel)) [
    | inl e ↦ absurd (subst (Returns _) e i.tunnel)
    | inr (t, e) ↦
        let x = subst (Returns _) e i.tunnel in
        let bs = encode_login_rsp r in
        let step : stream_round sys k.tunnel (header (length bs)) w
            ≡ some (more, begun k.tunnel t w) =
          ap (λ n. stream_round sys k.tunnel (header n) w) (length-encode_login_rsp r)
          ∙ stream_round-header k.tunnel login_rsp_size t w e x.5
          ∙ read_header-more k.tunnel t w x.5.2 in
        rw
          (recv_loop-more (stream_round sys k.tunnel) (header (length bs)) (bs ∷ []) w
            (begun k.tunnel t w) step)
          (body-IsOpen k r (reading t) (begun k.tunnel t w)
            (unfold begun in rw (==_refl k.tunnel) refl) c f (refl, refl, refl, refl)
            (begun-IsPair k t w e x.5 i))
  ]
