-- ===== src/Dpi/Stream/Steps.antt =====
-- One round of the loop of `StreamRecvEvent` of ic-dpi/ic-dpi/ConnectMgr.cpp, on what has come and on
-- what has come with more behind it.
use native.Mathlib.Nat.{add_assoc}
use https_tunnel_proxy.Base.{
  ℕ, suc, ◌+◌, ◌-◌, ◌≤◌, ◌<◌, ◌≡◌, ◌⊎◌, List, [], ◌∷◌, ◌++◌, arith, length, take, drop,
  append_assoc, length-append, length-take, length-drop, take-append_le, drop-append_le, take_past,
  drop_past, drop-drop, take-add, drop-add, take_all,
}
use https_tunnel_proxy.Dpi.Stream.{
  s_header, s_body, Connect, buff_size, Ret, would_block, incomplete, bad_header, closed, overrun,
  write_at, Next, stop, go, dispatch, take_in, round,
}

-- What holds of a connection between rounds.
pub record IsReading (c : Connect) : Type 0 where
  pub buff : length c.buff ≡ buff_size
  pub offset : c.offset ≤ buff_size
  pub state : (c.cstate ≡ s_header) ⊎ (c.cstate ≡ s_body)

length-write_at :
    (buf : List ℕ) (off : ℕ) (xs : List ℕ)
    → off + length xs ≤ length buf
    → length (write_at buf off xs) ≡ length buf
length-write_at buf off xs h = omega (
  arith,
  length-append (take off buf) (xs ++ drop (off + length xs) buf),
  length-append xs (drop (off + length xs) buf),
  length-take off buf,
  length-drop (off + length xs) buf,
)

-- Two writes, the second behind the first, are one.
write_at-append :
    (buf : List ℕ) (off : ℕ) (xs ys : List ℕ)
    → off + length xs + length ys ≤ length buf
    → write_at (write_at buf off xs) (off + length xs) ys ≡ write_at buf off (xs ++ ys)
write_at-append buf off xs ys h = rw (
  ← append_assoc (take off buf) xs (drop (off + length xs) buf),
  take_past (off + length xs) (take off buf ++ xs) (drop (off + length xs) buf) here,
  drop_past (off + length xs) (length ys) (take off buf ++ xs) (drop (off + length xs) buf) here,
  drop-drop (off + length xs) (length ys) buf,
  append_assoc (take off buf) xs,
  append_assoc xs ys,
  length-append xs ys,
  add_assoc off (length xs) (length ys),
)
  where
    here : length (take off buf ++ xs) ≡ off + length xs
    here = omega (arith, length-append (take off buf) xs, length-take off buf)

module _ {S : Type 0} (handle : S → List ℕ → ℕ → S) where
  -- The connection after a read of less than is wanted.
  abbrev pub partial : Connect → List ℕ → Connect
  partial c xs = record c {
    buff = write_at c.buff c.offset xs;
    offset = c.offset + length xs;
    stillneedtoread = c.stillneedtoread - length xs;
  }

  abbrev pub extend : Next S → List ℕ → Next S
  extend (stop c s r) ys = stop c s r
  extend (go c s rest) ys = go c s (rest ++ ys)

  -- A connection that the caller removes.
  abbrev pub IsDead : Ret → Type 0
  IsDead r = (r ≡ bad_header) ⊎ (r ≡ overrun) ⊎ (r ≡ closed)

  -- A round that has all that it wants either goes on or ends the connection.
  abbrev pub IsFull : Next S → ℕ → Type 0
  IsFull (stop c s r) n = IsDead r
  IsFull (go c s rest) n = IsReading c × (length rest < n)

  IsFull-mono : (n : Next S) {k m : ℕ} → k ≤ m → IsFull n k → IsFull n m
  IsFull-mono (stop c s r) h f = f
  IsFull-mono (go c s rest) h f = (f.0, omega arith)

  take_in-append :
      (c : Connect) (s : S) (got rest ys : List ℕ)
      → IsReading c
      → c.stillneedtoread ≡ length got
      → take_in handle c s got (rest ++ ys) ≡ extend (take_in handle c s got rest) ys
  unfolding take_in dispatch
  take_in-append c s got rest ys v h = ground arith

  take_in-IsFull :
      (c : Connect) (s : S) (got rest : List ℕ)
      → IsReading c
      → c.stillneedtoread ≡ length got
      → IsFull (take_in handle c s got rest) (suc (length rest))
  unfolding take_in dispatch
  take_in-IsFull c s got rest v h = ground (arith, length-write_at c.buff c.offset got)

  pub round_wants :
      (c : Connect) (s : S) (b : ℕ) (bs : List ℕ)
      → 0 < c.stillneedtoread
      → round handle c s (b ∷ bs)
        ≡ take_in handle c s (take c.stillneedtoread (b ∷ bs)) (drop c.stillneedtoread (b ∷ bs))
  unfolding round
  round_wants c s b bs h = ground arith

  length-wanted : (n : ℕ) (xs : List ℕ) → n ≤ length xs → n ≡ length (take n xs)
  length-wanted n xs h = omega (arith, length-take n xs)

  -- What comes behind a complete read stays for the next rounds.
  pub round-append :
      (c : Connect) (s : S) (xs ys : List ℕ)
      → IsReading c
      → 0 < c.stillneedtoread
      → c.stillneedtoread ≤ length xs
      → round handle c s (xs ++ ys) ≡ extend (round handle c s xs) ys
  round-append c s [] ys v p h = absurd (omega arith)
  round-append c s (b ∷ bs) ys v p h =
      rw (round_wants c s b (bs ++ ys) p, round_wants c s b bs p)
        (rw
          (
            take-append_le c.stillneedtoread (b ∷ bs) ys h,
            drop-append_le c.stillneedtoread (b ∷ bs) ys h,
          )
          (take_in-append c s (take c.stillneedtoread (b ∷ bs)) (drop c.stillneedtoread (b ∷ bs)) ys
            v (length-wanted _ (b ∷ bs) h)))

  pub round-IsFull :
      (c : Connect) (s : S) (xs : List ℕ)
      → IsReading c
      → 0 < c.stillneedtoread
      → c.stillneedtoread ≤ length xs
      → IsFull (round handle c s xs) (length xs)
  round-IsFull c s [] v p h = absurd (omega arith)
  round-IsFull c s (b ∷ bs) v p h = rw (round_wants c s b bs p) (
      IsFull-mono (take_in handle c s (take c.stillneedtoread (b ∷ bs)) _)
        (omega (arith, length-drop c.stillneedtoread (b ∷ bs)))
        (take_in-IsFull c s (take c.stillneedtoread (b ∷ bs)) _ v (length-wanted _ (b ∷ bs) h)))

  -- A read of less than is wanted waits for more.
  pub round_short :
      (c : Connect) (s : S) (b : ℕ) (bs : List ℕ)
      → IsReading c
      → length (b ∷ bs) < c.stillneedtoread
      → c.offset + length (b ∷ bs) ≤ buff_size
      → round handle c s (b ∷ bs) ≡ stop (partial c (b ∷ bs)) s incomplete
  unfolding take_in
  round_short c s b bs v h f =
      rw (round_wants c s b bs (omega arith), take_all (b ∷ bs) c.stillneedtoread (omega arith))
        (ground arith)

  pub round_overrun :
      (c : Connect) (s : S) (b : ℕ) (bs : List ℕ)
      → 0 < c.stillneedtoread
      → buff_size < c.offset + length (take c.stillneedtoread (b ∷ bs))
      → round handle c s (b ∷ bs) ≡ stop c s overrun
  unfolding take_in
  round_overrun c s b bs h f = rw (round_wants c s b bs h) (ground arith)

  abbrev blank : Connect
  blank = record { cstate = s_header; h_len = 0; stillneedtoread = 0; offset = 0; buff = [] }

  -- The fields of a connection that is removed do not matter.
  abbrev pub norm : Next S → Next S
  norm (stop c s would_block) = stop c s would_block
  norm (stop c s incomplete) = stop c s incomplete
  norm (stop c s bad_header) = stop blank s bad_header
  norm (stop c s closed) = stop blank s closed
  norm (stop c s overrun) = stop blank s overrun
  norm (go c s rest) = go c s rest

  take_in-partial :
      (c : Connect) (s : S) (xs got rest : List ℕ)
      → IsReading c
      → length xs < c.stillneedtoread
      → c.offset + length xs ≤ buff_size
      → norm (take_in handle (partial c xs) s got rest) ≡ norm (take_in handle c s (xs ++ got) rest)
  unfolding take_in dispatch
  take_in-partial c s xs got rest v h f =
      ground (arith, write_at-append c.buff c.offset xs got, length-append xs got)

  -- Reading in two parts is reading at once.
  pub round-partial :
      (c : Connect) (s : S) (b : ℕ) (bs : List ℕ) (y : ℕ) (ys : List ℕ)
      → IsReading c
      → length (b ∷ bs) < c.stillneedtoread
      → c.offset + length (b ∷ bs) ≤ buff_size
      → norm (round handle (partial c (b ∷ bs)) s (y ∷ ys))
        ≡ norm (round handle c s ((b ∷ bs) ++ (y ∷ ys)))
  round-partial c s b bs y ys v h f =
      rw
        (
          round_wants (partial c (b ∷ bs)) s y ys (omega arith),
          round_wants c s b (bs ++ (y ∷ ys)) (omega arith),
        )
        (rw
          (
            take-add c.stillneedtoread (b ∷ bs) (y ∷ ys) (omega arith),
            drop-add c.stillneedtoread (b ∷ bs) (y ∷ ys) (omega arith),
          )
          (take_in-partial c s (b ∷ bs) _ _ v h f))

  pub partial-IsReading :
      (c : Connect) (xs : List ℕ)
      → IsReading c
      → c.offset + length xs ≤ buff_size
      → IsReading (partial c xs)
  partial-IsReading c xs v f = ground (arith, length-write_at c.buff c.offset xs)
