-- ===== src/Dpi/Stream/Chunks.antt =====
-- The loop of `StreamRecvEvent` of ic-dpi/ic-dpi/ConnectMgr.cpp over a whole event, and over a
-- sequence of events.
use https_tunnel_proxy.Base.{
  ℕ, zero, suc, ◌+◌, ◌≤◌, ◌<◌, ◌≡◌, refl, sym, ap, ◌∙◌, List, [], ◌∷◌, ◌++◌, ◌≢◌, Option, none,
  some, arith, length, length-append, length-take, dec_lt, flatten, All, append_assoc, append-nil,
}
use https_tunnel_proxy.Dpi.Stream.{
  Connect, buff_size, Ret, would_block, incomplete, bad_header, closed, overrun, Next, stop, go,
  round, Done, continue, stream_recv_event,
}
use https_tunnel_proxy.Dpi.Stream.Steps.{
  IsReading, partial, extend, IsFull, norm, round-append, round-IsFull, round_short, round_overrun,
  round-partial, partial-IsReading,
}

module _ {S : Type 0} (handle : S → List ℕ → ℕ → S) where
  -- What an event leaves: a connection that waits for more, or the reason why the caller removes it.
  pub data Fate : Type 0 where
    alive : Connect → S → Fate
    dead : S → Ret → Fate
    stuck : Fate

  abbrev pub fate_of : Connect → S → Ret → Fate
  fate_of c s would_block = alive c s
  fate_of c s incomplete = alive c s
  fate_of c s bad_header = dead s bad_header
  fate_of c s closed = dead s closed
  fate_of c s overrun = dead s overrun

  abbrev fate : Option (Done handle) → Fate
  fate none = stuck
  fate (some d) = fate_of d.conn d.state d.ret

  abbrev loop : ℕ → Connect → S → List ℕ → Option (Done handle)
  loop = stream_recv_event handle

  -- One event on a socket that holds `avail`; the fuel is one more than its bytes.
  pub event : Connect → S → List ℕ → Fate
  event c s avail = fate (loop (suc (length avail)) c s avail)

  abbrev then_event : Fate → List ℕ → Fate
  then_event (alive c s) ys = event c s ys
  then_event (dead s r) ys = dead s r
  then_event stuck ys = stuck

  abbrev IsProgress : Next S → ℕ → Type 0
  IsProgress (stop c s r) n = Unit
  IsProgress (go c s rest) n = IsReading c × (length rest < n)

  IsFull-IsProgress : (n : Next S) (k : ℕ) → IsFull handle n k → IsProgress n k
  IsFull-IsProgress (stop c s r) k h = tt
  IsFull-IsProgress (go c s rest) k h = h

  -- A round has all that it wants, or less, or would write behind the buffer.
  data Reading (c : Connect) (xs : List ℕ) : Type 0 where
    full : c.stillneedtoread ≤ length xs → Reading c xs
    short : length xs < c.stillneedtoread → c.offset + length xs ≤ buff_size → Reading c xs
    long : length xs < c.stillneedtoread → buff_size < c.offset + length xs → Reading c xs

  reading : (c : Connect) (xs : List ℕ) → Reading c xs
  reading c xs = elim (dec_lt (length xs) c.stillneedtoread) [
    | no p ↦ full (omega arith)
    | yes p ↦ elim (dec_lt buff_size (c.offset + length xs)) [
      | yes q ↦ long p q
      | no q ↦ short p (omega arith)
    ]
  ]

  round_long :
      (c : Connect) (s : S) (b : ℕ) (bs ys : List ℕ)
      → length (b ∷ bs) < c.stillneedtoread
      → buff_size < c.offset + length (b ∷ bs)
      → round handle c s ((b ∷ bs) ++ ys) ≡ stop c s overrun
  round_long c s b bs ys h f =
      round_overrun handle c s b (bs ++ ys) (omega arith)
        (omega (arith, length-take c.stillneedtoread (b ∷ (bs ++ ys)), length-append bs ys))

  round_idle :
      (c : Connect) (s : S) (xs : List ℕ)
      → c.stillneedtoread ≡ 0
      → round handle c s xs ≡ stop c s closed
  unfolding round
  round_idle c s [] h = ground arith
  round_idle c s (b ∷ bs) h = ground arith

  round_empty :
      (c : Connect) (s : S) → 0 < c.stillneedtoread → round handle c s [] ≡ stop c s would_block
  unfolding round
  round_empty c s h = ground arith

  Reading-IsProgress :
      (c : Connect) (s : S) (b : ℕ) (bs : List ℕ)
      → IsReading c
      → 0 < c.stillneedtoread
      → Reading c (b ∷ bs)
      → IsProgress (round handle c s (b ∷ bs)) (length (b ∷ bs))
  Reading-IsProgress c s b bs v p (full h) =
      IsFull-IsProgress _ _ (round-IsFull handle c s (b ∷ bs) v p h)
  Reading-IsProgress c s b bs v p (short h f) = rw (round_short handle c s b bs v h f) tt
  Reading-IsProgress c s b bs v p (long h f) =
      rw (← append-nil bs) (rw (round_long c s b bs [] h f) tt)

  round-IsProgress :
      (c : Connect) (s : S) (xs : List ℕ)
      → IsReading c
      → IsProgress (round handle c s xs) (length xs)
  unfolding round
  round-IsProgress c s [] v = tt
  round-IsProgress c s (b ∷ bs) v = elim (dec_lt 0 c.stillneedtoread) [
    | yes p ↦ Reading-IsProgress c s b bs v p (reading c (b ∷ bs))
    | no p ↦ rw (round_idle c s (b ∷ bs) (omega arith)) tt
  ]

  abbrev Rest : Type 0
  Rest = Connect → S → List ℕ → Option (Done handle)

  continue_same :
      (n : Next S) (k m : Rest) (len : ℕ)
      → IsProgress n len
      → ((c : Connect) (s : S) (rest : List ℕ)
          → IsReading c
          → length rest < len
          → fate (k c s rest) ≡ fate (m c s rest))
      → fate (continue handle n k) ≡ fate (continue handle n m)
  continue_same (stop c s r) k m len p same = refl
  continue_same (go c s rest) k m len p same = same c s rest p.0 p.1

  fuel_same :
      (f g : ℕ) (c : Connect) (s : S) (xs : List ℕ)
      → IsReading c
      → length xs < f
      → length xs < g
      → fate (loop f c s xs) ≡ fate (loop g c s xs)
  unfolding stream_recv_event
  fuel_same zero g c s xs v h k = absurd (omega arith)
  fuel_same (suc f) zero c s xs v h k = absurd (omega arith)
  fuel_same (suc f) (suc g) c s xs v h k =
      continue_same (round handle c s xs) (loop f) (loop g) (length xs) (round-IsProgress c s xs v)
        λ c' s' rest v' p. fuel_same f g c' s' rest v' (omega arith) (omega arith)

  abbrev pub next_fate : Next S → Fate
  next_fate (stop c s r) = fate_of c s r
  next_fate (go c s rest) = event c s rest

  next_fate-continue :
      (n : Next S) (len : ℕ) → IsProgress n len → fate (continue handle n (loop len)) ≡ next_fate n
  unfolding event
  next_fate-continue (stop c s r) len p = refl
  next_fate-continue (go c s rest) len p =
      fuel_same len (suc (length rest)) c s rest p.0 p.1 (omega arith)

  pub event_lem :
      (c : Connect) (s : S) (xs : List ℕ)
      → IsReading c
      → event c s xs ≡ next_fate (round handle c s xs)
  unfolding event stream_recv_event
  event_lem c s xs v =
      next_fate-continue (round handle c s xs) (length xs) (round-IsProgress c s xs v)

  next_fate-norm : (n : Next S) → next_fate (norm handle n) ≡ next_fate n
  next_fate-norm (stop c s would_block) = refl
  next_fate-norm (stop c s incomplete) = refl
  next_fate-norm (stop c s bad_header) = refl
  next_fate-norm (stop c s closed) = refl
  next_fate-norm (stop c s overrun) = refl
  next_fate-norm (go c s rest) = refl

  extend-then :
      (n : Next S) (k y : ℕ) (ys : List ℕ)
      → IsFull handle n k
      → ((c : Connect) (s : S) (rest : List ℕ)
          → IsReading c
          → length rest < k
          → event c s (rest ++ (y ∷ ys)) ≡ then_event (event c s rest) (y ∷ ys))
      → next_fate (extend handle n (y ∷ ys)) ≡ then_event (next_fate n) (y ∷ ys)
  extend-then (stop c s bad_header) k y ys p ih = refl
  extend-then (stop c s overrun) k y ys p ih = refl
  extend-then (stop c s closed) k y ys p ih = refl
  extend-then (stop c s would_block) k y ys p ih = ground arith
  extend-then (stop c s incomplete) k y ys p ih = ground arith
  extend-then (go c s rest) k y ys p ih = ih c s rest p.0 p.1

  Reading-append :
      (c : Connect) (s : S) (b : ℕ) (bs : List ℕ) (y : ℕ) (ys : List ℕ)
      → IsReading c
      → 0 < c.stillneedtoread
      → Reading c (b ∷ bs)
      → ((c : Connect) (s : S) (rest : List ℕ)
          → IsReading c
          → length rest < length (b ∷ bs)
          → event c s (rest ++ (y ∷ ys)) ≡ then_event (event c s rest) (y ∷ ys))
      → event c s ((b ∷ bs) ++ (y ∷ ys)) ≡ then_event (event c s (b ∷ bs)) (y ∷ ys)
  Reading-append c s b bs y ys v p (full h) ih =
      rw
        (
          event_lem c s ((b ∷ bs) ++ (y ∷ ys)) v,
          event_lem c s (b ∷ bs) v,
          round-append handle c s (b ∷ bs) (y ∷ ys) v p h,
        )
        (extend-then (round handle c s (b ∷ bs)) (length (b ∷ bs)) y ys
          (round-IsFull handle c s (b ∷ bs) v p h) ih)
  Reading-append c s b bs y ys v p (short h f) ih =
      rw (event_lem c s (b ∷ bs) v, round_short handle c s b bs v h f)
        (event_lem c s ((b ∷ bs) ++ (y ∷ ys)) v
          ∙ sym (next_fate-norm (round handle c s ((b ∷ bs) ++ (y ∷ ys))))
          ∙ sym (ap next_fate (round-partial handle c s b bs y ys v h f))
          ∙ next_fate-norm (round handle (partial handle c (b ∷ bs)) s (y ∷ ys))
          ∙ sym (
              event_lem (partial handle c (b ∷ bs)) s (y ∷ ys)
                (partial-IsReading handle c (b ∷ bs) v f)))
  Reading-append c s b bs y ys v p (long h f) ih = rw (
    event_lem c s ((b ∷ bs) ++ (y ∷ ys)) v,
    event_lem c s (b ∷ bs) v,
    round_long c s b bs (y ∷ ys) h f,
    ← append-nil bs,
    round_long c s b bs [] h f,
  )

  append_at :
      (f : ℕ) (c : Connect) (s : S) (xs : List ℕ) (y : ℕ) (ys : List ℕ)
      → IsReading c
      → length xs < f
      → event c s (xs ++ (y ∷ ys)) ≡ then_event (event c s xs) (y ∷ ys)
  append_at zero c s xs y ys v h = absurd (omega arith)
  append_at (suc f) c s [] y ys v h = elim (dec_lt 0 c.stillneedtoread) [
    | yes p ↦ rw (event_lem c s [] v, round_empty c s p)
    | no p ↦ rw (
      event_lem c s (y ∷ ys) v,
      event_lem c s [] v,
      round_idle c s (y ∷ ys) (omega arith),
      round_idle c s [] (omega arith),
    )
  ]
  append_at (suc f) c s (b ∷ bs) y ys v h = elim (dec_lt 0 c.stillneedtoread) [
    | yes p ↦
        Reading-append c s b bs y ys v p (reading c (b ∷ bs))
          λ c' s' rest v' q. append_at f c' s' rest y ys v' (omega arith)
    | no p ↦ rw (
      event_lem c s ((b ∷ bs) ++ (y ∷ ys)) v,
      event_lem c s (b ∷ bs) v,
      round_idle c s ((b ∷ bs) ++ (y ∷ ys)) (omega arith),
      round_idle c s (b ∷ bs) (omega arith),
    )
  ]

  event-append :
      (c : Connect) (s : S) (xs : List ℕ) (y : ℕ) (ys : List ℕ)
      → IsReading c
      → event c s (xs ++ (y ∷ ys)) ≡ then_event (event c s xs) (y ∷ ys)
  event-append c s xs y ys v = append_at (suc (length xs)) c s xs y ys v (omega arith)

  -- Events one after the other, on what arrived for each.
  pub receive : Fate → List (List ℕ) → Fate
  receive f [] = f
  receive f (xs ∷ xss) = receive (then_event f xs) xss

  receive-event :
      (c : Connect) (s : S) (xs : List ℕ) (xss : List (List ℕ))
      → IsReading c
      → All (λ ys. ys ≢ []) xss
      → receive (event c s xs) xss ≡ event c s (xs ++ flatten xss)
  unfolding receive
  receive-event c s xs [] v h = rw append-nil
  receive-event c s xs ([] ∷ xss) v h = absurd (h.0 refl)
  receive-event c s xs ((y ∷ ys) ∷ xss) v h = rw (← event-append c s xs y ys v) (
      receive-event c s (xs ++ (y ∷ ys)) xss v h.1
      ∙ ap (event c s) (append_assoc xs (y ∷ ys) (flatten xss)))

  -- A connection that is read in any number of events, each with some bytes, ends as if all the bytes
  -- had come in one event: in the same state, with the same messages handled, or removed for the
  -- same reason.
  pub receive-flatten :
      (c : Connect) (s : S) (xs : List ℕ) (xss : List (List ℕ))
      → IsReading c
      → All (λ ys. ys ≢ []) (xs ∷ xss)
      → receive (alive c s) (xs ∷ xss) ≡ event c s (flatten (xs ∷ xss))
  unfolding receive
  receive-flatten c s xs xss v h = receive-event c s xs xss v h.1
