-- ===== src/Sdk/Stream.antt =====
-- What the client gets from the proxy server: `StreamRecvEvent` and `HandleEPOEvent` of
-- sdk/sdk/ConnectMgr.cpp. The list of chunks is what `recv` answers, one after the other.
pub mod Fill
pub mod Relay
use https_tunnel_proxy.Base.{
  ℕ, ◌+◌, ◌-◌, Bool, true, false, not, ◌&&◌, ◌||◌, List, [], ◌∷◌, ◌++◌, Option, none, some, length,
  take, drop, ltb, ◌==◌, if◌then◌else◌,
}
use https_tunnel_proxy.Base.State.{pure, undefined, ◌>>=◌, ◌>>◌, skip, gets, modify}
use https_tunnel_proxy.Wire.Bytes.{validater0, validater1, from_be16, field, header_size}
use https_tunnel_proxy.Tms.World.{set, s_header, s_body, s_forward, sta_online, sta_hangup}
use https_tunnel_proxy.Sdk.World.{
  Connect, System, buff_size, t_proxy, ym_ev_rd, ym_ev_wr, received, http_reply,
}
use https_tunnel_proxy.Sdk.World.Action.{Action, call, conn_at, put_conn}
use https_tunnel_proxy.Sdk.Connection.{
  add_r_event, add_event, remove_event, write, count, traffic_est,
}
use https_tunnel_proxy.Sdk.Session.{handle_recv_msg}

-- How a round of the loop ends: the loop goes on, or the method returns -2 or -1.
pub data Round : Type 0 where
  more again failed : Round

-- What a `write` took; -1 counts as 0.
abbrev pub taken : Option ℕ → ℕ
taken none = 0
taken (some k) = k

-- `recv` into `r_buff + r_offset`.
abbrev pub fill : ℕ → List ℕ → List ℕ → List ℕ
fill off bs buf = take off buf ++ (bs ++ drop (off + length bs) buf)

-- `s_header`
unfoldable pub read_header : ℕ → Connect → Action Round
unfolding from_be16 field
read_header p c =
    if not (field c.r_buff 0 1 == validater0) || not (field c.r_buff 1 1 == validater1)
    then pure failed
    else (do
      let n = from_be16 (field c.r_buff 2 1) (field c.r_buff 3 1)
      put_conn p (record c { h_len = n; cstate = s_body; r_offset = 0; stillneedtoread = n })
      pure more)

-- `s_body`
unfoldable pub read_body : System → ℕ → Connect → Action Round
unfolding handle_recv_msg
read_body sys p c = do
  put_conn p (record c { cstate = s_header; stillneedtoread = header_size; r_offset = 0 })
  handle_recv_msg sys p (take c.h_len c.r_buff)
  pure more

-- `s_forward` with a peer: what the peer's socket does not take is kept, and the tunnel is hung up.
unfoldable pub download : System → ℕ → Connect → ℕ → ℕ → Action Round
unfolding write remove_event
download sys p c q n = do
  d ← conn_at q
  k ← write sys d.sock_fd (take n c.r_buff)
  let wrote_len = taken k
  if wrote_len == n then pure more else (do
    put_conn p (record c { r_data_len = n - wrote_len; r_offset = wrote_len; status = sta_hangup })
    ok ← remove_event sys c.sock_fd ym_ev_rd
    pure (if ok then again else failed))

-- The body of the loop, for the bytes that `recv` gave.
unfoldable pub stream_round : System → ℕ → List ℕ → Action Round
unfolding read_header read_body download count traffic_est
stream_round sys p bs = do
  c0 ← conn_at p
  call (received c0.sock_fd bs)
  if ltb buff_size (c0.r_offset + length bs)
      then undefined
      else put_conn p (record c0 { r_buff = fill c0.r_offset bs c0.r_buff })
  count p (traffic_est sys.accurate (some (length bs)))
  c ← conn_at p
  if not (c.cstate == s_forward) && ltb (length bs) c.stillneedtoread
      then (do
        put_conn p (record c {
          r_offset = c.r_offset + length bs;
          stillneedtoread = c.stillneedtoread - length bs;
        })
        pure again)
      else if c.cstate == s_header
      then read_header p c
      else if c.cstate == s_body
      then read_body sys p c
      else if c.cstate == s_forward
      then elim c.peer [
        | none ↦ call (http_reply c.sock_fd (take (length bs) c.r_buff)) >> pure more
        | some q ↦ download sys p c q (length bs)
      ]
      else pure more

-- `while (recv(...) > 0)` around the body of a loop: how it ends, and the chunks that are not read yet.
-- At the end of the chunks `recv` answers 0 or -1, which is returned.
unfoldable pub recv_loop : (List ℕ → Action Round) → List (List ℕ) → Action (Round × List (List ℕ))
recv_loop f [] = pure (more, [])
recv_loop f (bs ∷ bss) = f bs >>= λ r. elim r [
  | more ↦ recv_loop f bss
  | again ↦ pure (again, bss)
  | failed ↦ pure (failed, bss)
]

-- `StreamRecvEvent`
unfoldable pub stream_recv_event : System → ℕ → List (List ℕ) → Action (Round × List (List ℕ))
unfolding stream_round recv_loop
stream_recv_event sys p bss = recv_loop (stream_round sys p) bss

-- What a hung up tunnel holds.
abbrev pub held : Connect → List ℕ
held t = take t.r_data_len (drop t.r_offset t.r_buff)

-- The part of `HandleEPOEvent` for a peer that is hung up.
unfoldable pub flush : System → ℕ → ℕ → Connect → Action (Unit {0})
unfolding write add_r_event add_event
flush sys fd q t = do
  k ← write sys fd (held t)
  let wrote_len = taken k
  if wrote_len == t.r_data_len
      then (do
        put_conn q (record t { r_offset = 0; stillneedtoread = buff_size; status = sta_online })
        add_r_event sys t.sock_fd
        skip)
      else if ltb 0 wrote_len
      then put_conn q
          (record t { r_offset = t.r_offset + wrote_len; r_data_len = t.r_data_len - wrote_len })
      else (add_event sys fd ym_ev_wr >> skip)

-- `HandleEPOEvent`: whether it returns 0. A descriptor that is not known gets an entry with a null
-- pointer.
unfoldable pub handle_epo_event : System → ℕ → Action Bool
unfolding flush
handle_epo_event sys fd = do
  found ← gets (λ w. w.conn_map fd)
  elim found [
    | none ↦ modify (λ w. record w { conn_map = set w.conn_map fd none }) >> pure false
    | some none ↦ pure false
    | some (some p) ↦ do
      c ← conn_at p
      elim c.peer [
        | none ↦ pure true
        | some q ↦ do
          t ← conn_at q
          if not (t.status == sta_hangup) || (not (c.type == t_proxy) || (t.r_data_len == 0))
              then pure true
              else (flush sys fd q t >> pure true)
      ]
  ]
