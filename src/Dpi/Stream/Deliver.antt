-- ===== src/Dpi/Stream/Deliver.antt =====
-- `StreamRecvEvent` of ic-dpi/ic-dpi/ConnectMgr.cpp on messages that are sent with `SendTmsMsg`.
use https_tunnel_proxy.Base.{
  ℕ, ◌+◌, ◌≤◌, ◌<◌, ◌≡◌, refl, inl, inr, List, [], ◌∷◌, ◌++◌, ◌≢◌, arith, length, drop,
  length-append, length-drop, take_past, drop-append, append_assoc, map, flatten, All,
}
use https_tunnel_proxy.Wire.Bytes.{header, frame, header_size, from_be16, field, from_le}
use https_tunnel_proxy.Dpi.Stream.{
  s_header, s_body, Connect, buff_size, go, round, take_in, dispatch,
}
use https_tunnel_proxy.Dpi.Stream.Steps.{IsReading, round_wants}
use https_tunnel_proxy.Dpi.Stream.Chunks.{
  Fate, alive, dead, stuck, event, event_lem, receive, receive-flatten,
}

-- A connection between two messages.
abbrev pub idle : ℕ → List ℕ → Connect
idle n buf = record {
  cstate = s_header;
  h_len = n;
  stillneedtoread = header_size;
  offset = 0;
  buff = buf;
}

abbrev in_body : ℕ → List ℕ → Connect
in_body n buf = record { cstate = s_body; h_len = n; stillneedtoread = n; offset = 0; buff = buf }

abbrev pub IsIdle : Connect → Type 0
IsIdle c = (c ≡ idle c.h_len c.buff) × (length c.buff ≡ buff_size)

-- What the sender hands to the handler's side: a message that is not empty and fits the buffer.
abbrev pub IsMessage : List ℕ → Type 0
IsMessage m = (0 < length m) × (length m ≤ buff_size)

-- What a sequence of messages does.
abbrev pub acted : {S : Type 0} → (S → List ℕ → S) → S → List (List ℕ) → S
acted act s [] = s
acted act s (m ∷ ms) = acted act (act s m) ms

module _ {S : Type 0} (handle : S → List ℕ → ℕ → S) where
  -- The connection lives, between two messages, and the handler's state is `s'`.
  abbrev pub Delivers : S → Fate handle → Type 0
  Delivers s' (alive c s) = IsIdle c × (s ≡ s')
  Delivers s' (dead s r) = ⊥
  Delivers s' stuck = ⊥

  round-header :
      (k n : ℕ) (buf rest : List ℕ) (s : S)
      → length buf ≡ buff_size
      → n ≤ buff_size
      → round handle (idle k buf) s (header n ++ rest)
        ≡ go (in_body n (header n ++ drop 6 buf)) s rest
  unfolding round take_in dispatch header field from_le from_be16
  round-header k n buf rest s h f = ground arith

  taken_body :
      (buf m rest : List ℕ) (s : S)
      → IsMessage m
      → take_in handle (in_body (length m) buf) s m rest
        ≡ go
            (idle (length m) (m ++ drop (length m) buf))
            (handle s (m ++ drop (length m) buf) (length m))
            rest
  unfolding take_in dispatch
  taken_body buf m rest s f = let e : 0 + length m ≡ length m = omega arith in rw e (ground arith)

  round_body :
      (buf m rest : List ℕ) (s : S)
      → length buf ≡ buff_size
      → IsMessage m
      → round handle (in_body (length m) buf) s (m ++ rest)
        ≡ go
            (idle (length m) (m ++ drop (length m) buf))
            (handle s (m ++ drop (length m) buf) (length m))
            rest
  round_body buf [] rest s h f = absurd (omega arith)
  round_body buf (b ∷ bs) rest s h f =
      rw
        (
          round_wants handle (in_body (length (b ∷ bs)) buf) s b (bs ++ rest) f.0,
          take_past (length (b ∷ bs)) (b ∷ bs) rest refl,
          drop-append (b ∷ bs) rest,
        )
        (taken_body buf (b ∷ bs) rest s f)

  -- What a message does to the handler's state, whatever the buffer holds behind it.
  module _ (act : S → List ℕ → S) (IsKnown : List ℕ → Type 0)
      (acts : (s : S) (m behind : List ℕ)
        → IsKnown m
        → handle s (m ++ behind) (length m) ≡ act s m) where
    abbrev after_header : ℕ → List ℕ → List ℕ
    after_header n buf = header n ++ drop 6 buf

    abbrev after_body : List ℕ → List ℕ → List ℕ
    after_body m buf = m ++ drop (length m) (after_header (length m) buf)

    length-after_header :
        (n : ℕ) (buf : List ℕ) → length buf ≡ buff_size → length (after_header n buf) ≡ buff_size
    unfolding header
    length-after_header n buf h = omega (arith, length-drop 6 buf)

    length-after_body :
        (m buf : List ℕ)
        → length buf ≡ buff_size
        → IsMessage m
        → length (after_body m buf) ≡ buff_size
    length-after_body m buf h f = omega (
      arith,
      length-append m (drop (length m) (after_header (length m) buf)),
      length-drop (length m) (after_header (length m) buf),
      length-after_header (length m) buf h,
    )

    idle-IsReading : (k : ℕ) (buf : List ℕ) → length buf ≡ buff_size → IsReading (idle k buf)
    idle-IsReading k buf h = record { buff = h; offset = omega arith; state = inl refl }

    in_body-IsReading : (k : ℕ) (buf : List ℕ) → length buf ≡ buff_size → IsReading (in_body k buf)
    in_body-IsReading k buf h = record { buff = h; offset = omega arith; state = inr refl }

    event-frame :
        (k : ℕ) (buf rest m : List ℕ) (s : S)
        → length buf ≡ buff_size
        → IsMessage m
        → IsKnown m
        → event handle (idle k buf) s (frame m ++ rest)
          ≡ event handle (idle (length m) (after_body m buf)) (act s m) rest
    unfolding frame
    event-frame k buf rest m s h f known = rw (
      append_assoc (header (length m)) m rest,
      event_lem handle (idle k buf) s (header (length m) ++ (m ++ rest)) (idle-IsReading k buf h),
      round-header k (length m) buf (m ++ rest) s h f.1,
      event_lem handle (in_body (length m) (after_header (length m) buf)) s (m ++ rest)
          (in_body-IsReading (length m) _ (length-after_header (length m) buf h)),
      round_body (after_header (length m) buf) m rest s (length-after_header (length m) buf h) f,
      acts s m (drop (length m) (after_header (length m) buf)) known,
    )

    event-frames :
        (k : ℕ) (buf : List ℕ) (s : S) (ms : List (List ℕ))
        → length buf ≡ buff_size
        → All (λ m. IsMessage m × IsKnown m) ms
        → Delivers (acted act s ms) (event handle (idle k buf) s (flatten (map frame ms)))
    unfolding round
    event-frames k buf s [] h a =
        rw (event_lem handle (idle k buf) s [] (idle-IsReading k buf h)) ((refl, h), refl)
    event-frames k buf s (m ∷ ms) h a =
        rw (event-frame k buf (flatten (map frame ms)) m s h a.0.0 a.0.1) (
          event-frames (length m) (after_body m buf) (act s m) ms (length-after_body m buf h a.0.0)
            a.1)

    -- Messages of 1 to 8192 bytes that are sent as frames are all handled, in order and once each, and
    -- the connection is then between two messages again, however the bytes are cut into events.
    pub receive-frames :
        (k : ℕ) (buf : List ℕ) (s : S) (ms : List (List ℕ)) (xs : List ℕ) (xss : List (List ℕ))
        → length buf ≡ buff_size
        → All (λ m. IsMessage m × IsKnown m) ms
        → All (λ ys. ys ≢ []) (xs ∷ xss)
        → flatten (xs ∷ xss) ≡ flatten (map frame ms)
        → Delivers (acted act s ms) (receive handle (alive (idle k buf) s) (xs ∷ xss))
    receive-frames k buf s ms xs xss h a n e =
        rw (receive-flatten handle (idle k buf) s xs xss (idle-IsReading k buf h) n, e)
          (event-frames k buf s ms h a)
