-- ===== src/Dpi/Stream.antt =====
-- `Connect::StreamRecvEvent` of ic-dpi/ic-dpi/ConnectMgr.cpp: messages put together from what arrives
-- on a socket. The header and body cases of tms/tms/ConnectMgr.cpp are the same code. The handler of
-- a complete message is a parameter; it is given the whole buffer, as `HandleRecvMsg` is.
pub mod Steps
pub mod Chunks
pub mod Deliver
use https_tunnel_proxy.Base.{
  ℕ, zero, suc, ◌+◌, ◌-◌, List, [], ◌∷◌, ◌++◌, Bool, true, false, not, ◌&&◌, Option, none, some,
  length, take, drop, ltb, ◌==◌, if◌then◌else◌,
}
use https_tunnel_proxy.Wire.Bytes.{field, from_be16, validater0, validater1, header_size}

-- enum Trans_stat
pub data TransStat : Type 0 where
  s_header s_body s_forward s_wait : TransStat

-- The fields of `Connect` that the loop uses; `h_len` is the length in `h` after `ntohs`.
pub record Connect : Type 0 where
  pub cstate : TransStat
  pub h_len : ℕ
  pub stillneedtoread : ℕ
  pub offset : ℕ
  pub buff : List ℕ

-- sizeof(buff)
abbrev pub buff_size : ℕ
buff_size = 8192

-- How an event ends: `read` would block (-1), a message is not complete (-2), a header is wrong
-- (-1), the peer has closed or nothing is wanted (0), or bytes were written behind the buffer.
pub data Ret : Type 0 where
  would_block incomplete bad_header closed overrun : Ret

-- `read` to `buff + offset`.
abbrev pub write_at : List ℕ → ℕ → List ℕ → List ℕ
write_at buf off xs = take off buf ++ (xs ++ drop (off + length xs) buf)

abbrev pub is_forward : TransStat → Bool
is_forward s_forward = true
is_forward _ = false

pub data Next (S : Type 0) : Type 0 where
  stop : Connect → S → Ret → Next S
  go : Connect → S → List ℕ → Next S

-- `h.delim0 != VALIDATER0 || h.delim1 != VALIDATER1`
abbrev pub is_marked : List ℕ → Bool
is_marked buf = (field buf 0 1 == validater0) && (field buf 1 1 == validater1)

module _ {S : Type 0} (handle : S → List ℕ → ℕ → S) where
  -- The `switch` on a complete read; `rest` is what the socket still holds.
  unfoldable pub dispatch : TransStat → Connect → S → List ℕ → Next S
  dispatch s_header c s rest =
      if is_marked c.buff
      then (let len = from_be16 (field c.buff 2 1) (field c.buff 3 1) in
          go (record c { h_len = len; cstate = s_body; offset = 0; stillneedtoread = len }) s rest)
      else stop c s bad_header
  dispatch s_body c s rest =
      go (record c { cstate = s_header; stillneedtoread = header_size; offset = 0 })
        (handle s c.buff c.h_len) rest
  dispatch s_forward c s rest = go c s rest
  dispatch s_wait c s rest = go c s rest

  -- One round of the loop, where `read` gives the bytes `got` and leaves `rest`.
  unfoldable pub take_in : Connect → S → List ℕ → List ℕ → Next S
  take_in c s got rest =
      let c' = record c { buff = write_at c.buff c.offset got } in
      if ltb buff_size (c.offset + length got)
      then stop c s overrun
      else if not (is_forward c.cstate) && ltb (length got) c.stillneedtoread
      then stop
          (record c' {
            offset = c.offset + length got;
            stillneedtoread = c.stillneedtoread - length got;
          })
          s incomplete
      else dispatch c.cstate c' s rest

  -- One round: `read` on a socket that holds `avail` and is not closed. It gives as many bytes as
  -- there are and as are wanted.
  unfoldable pub round : Connect → S → List ℕ → Next S
  round c s [] = stop c s (if c.stillneedtoread == 0 then closed else would_block)
  round c s (b ∷ bs) =
      if c.stillneedtoread == 0
      then stop c s closed
      else take_in c s (take c.stillneedtoread (b ∷ bs)) (drop c.stillneedtoread (b ∷ bs))

  pub record Done : Type 0 where
    pub conn : Connect
    pub state : S
    pub ret : Ret

  abbrev pub continue : Next S → (Connect → S → List ℕ → Option Done) → Option Done
  continue (stop c s r) k = some (record { conn = c; state = s; ret = r })
  continue (go c s rest) k = k c s rest

  -- The loop; `none`: out of fuel.
  unfoldable pub stream_recv_event : ℕ → Connect → S → List ℕ → Option Done
  stream_recv_event zero c s avail = none
  stream_recv_event (suc fuel) c s avail =
      continue (round c s avail) (λ c' s' rest. stream_recv_event fuel c' s' rest)
