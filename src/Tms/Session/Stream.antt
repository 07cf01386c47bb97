-- ===== src/Tms/Session/Stream.antt =====
-- One client's stream: what its connection, its block, its user and the connection to its web server
-- say of each other, and how the recorder's answer and the event of the web server change it.
use https_tunnel_proxy.Base.{
  ℕ, ◌-◌, ◌^◌, ◌≡◌, inl, inr, true, not, Option, none, some, List, [], ◌∷◌, arith, ◌==◌,
  if◌then◌else◌, Returns, Returns-map, Option-cases, get_elem?,
}
use https_tunnel_proxy.Base.Int.{add64}
use https_tunnel_proxy.Wire.RespCode
use https_tunnel_proxy.Wire.Messages.{LoginRsp, ReadTokenRsp}
use https_tunnel_proxy.Tms.Types.{Scb, u_validated}
use https_tunnel_proxy.Tms.Accounting.{ok, record_traffic}
use https_tunnel_proxy.Tms.World.{
  World, Connect, System, Call, sent, Message, set, t_tunnel, t_agent, t_dpi,
}
use https_tunnel_proxy.Tms.World.Action.{>>=-Returns}
use https_tunnel_proxy.Tms.Connection.{
  send, record_traffic_at, charge_tunnel, send_tms_msg, new_forward_id,
}
use https_tunnel_proxy.Tms.Session.{
  client_fd, strcmp_eq, tell_dpi, welcome, mark_validated, validate, on_read_token_rsp,
}
use https_tunnel_proxy.Tms.Events.{announce, reached, establish}

-- The addresses of a stream's objects: tunnel, agent, control block, user and the connection of the
-- meter, the descriptors of the first two, and
-- the client's token.
pub record Place : Type 0 where
  pub tunnel : ℕ
  pub agent : ℕ
  pub block : ℕ
  pub user : ℕ
  pub dpi : ℕ
  pub fd : ℕ
  pub agent_fd : ℕ
  pub token : List ℕ

-- How far the stream has come: `status`, `connected` and `forward_id` of its block, and the counter
-- of the forward ids.
pub record Stage : Type 0 where
  pub status : ℕ
  pub connected : ℕ
  pub forward_id : ℕ
  pub aval_forward_id : ℕ

-- The objects of a stream that is in use.
abbrev pub IsTunnel : Place → Connect → Type 0
IsTunnel k c =
    (c.type ≡ t_tunnel)
    × (c.user ≡ some k.user)
    × (c.scb ≡ some k.block)
    × (c.sock_fd ≡ k.fd)
    × (c.token ≡ k.token)

abbrev pub IsAgent : Place → Connect → Type 0
IsAgent k c =
    (c.type ≡ t_agent) × (c.user ≡ some k.user) × (c.scb ≡ some k.block) × (c.sock_fd ≡ k.agent_fd)

abbrev pub IsBlock : Place → Stage → Scb → Type 0
IsBlock k g s =
    (s.tunnel_conn ≡ some k.tunnel)
    × (s.agent_conn ≡ some k.agent)
    × (s.status ≡ g.status)
    × (s.connected ≡ g.connected)
    × (s.forward_id ≡ g.forward_id)

abbrev pub IsStream : Place → Stage → World → Type 0
IsStream k g w =
    Returns (IsTunnel k) (w.conns k.tunnel)
    × Returns (IsAgent k) (w.conns k.agent)
    × Returns (IsBlock k g) (w.scm.heap k.block)
    × Returns (λ u. Unit {0}) (w.users k.user)
    × Returns (λ d. d.type ≡ t_dpi) (w.conns k.dpi)
    × (get_elem? w.dpi_pool 0 ≡ some k.dpi)
    × (w.conn_map k.fd ≡ some k.tunnel)
    × (w.aval_forward_id ≡ g.aval_forward_id)

-- The last answer to a login on a descriptor.
unfoldable pub told : ℕ → List Call → Option LoginRsp
told fd [] = none
told fd (sent f (Message.login r) n ∷ cs) =
    let before = told fd cs in if f == fd then some r else before
told fd (c ∷ cs) = told fd cs

-- The calls are the old ones behind a message.
abbrev pub IsSent : ℕ → Message → List Call → List Call → Type 0
IsSent fd m old [] = ⊥
IsSent fd m old (sent f n r ∷ cs) = (f ≡ fd) × (n ≡ m) × (cs ≡ old)
IsSent fd m old (c ∷ cs) = ⊥

module _ (sys : System) (k : Place) (g : Stage) where
  pub send-tunnel :
      (m : Message) (w : World)
      → IsStream k g w
      → Returns
          (λ q. IsStream k g q.1 × IsSent k.fd m w.calls q.1.calls)
          (send_tms_msg sys k.tunnel m w)
  unfolding send_tms_msg send charge_tunnel record_traffic_at record_traffic
  send-tunnel m w h = ground arith

  tell_dpi-IsStream :
      (w : World)
      → IsStream k g w
      → Returns
          (λ q. IsStream k g q.1 × (told k.fd q.1.calls ≡ told k.fd w.calls))
          (tell_dpi sys k.tunnel w)
  unfolding tell_dpi send_tms_msg send charge_tunnel record_traffic_at record_traffic told
  tell_dpi-IsStream w h = ground arith

mark-IsStream :
    (k : Place) (g : Stage) (r : ReadTokenRsp) (w : World)
    → IsStream k g w
    → Returns
        (λ q.
          IsStream k (record g { status = u_validated }) q.1
          × IsBlock k (record g { status = u_validated }) q.0
          × (q.1.calls ≡ w.calls))
        (mark_validated k.tunnel k.block r w)
unfolding mark_validated
mark-IsStream k g r w h = ground arith

-- What a client was told last on a descriptor: a code and a forward id.
abbrev pub IsTold : ℕ → ℕ → ℕ → World → Type 0
IsTold fd code id w = Returns (λ r. (r.rsp_code ≡ code) × (r.forward_id ≡ id)) (told fd w.calls)

-- The code and the id that go with a stage once the token is right.
abbrev pub code_of : Stage → ℕ
code_of g = if not (g.connected == 0) then RespCode.ready else RespCode.token_verified

abbrev pub id_of : Stage → ℕ
id_of g = if not (g.connected == 0) then g.forward_id else 0

welcome-IsTold :
    (k : Place) (g : Stage) (b fd : ℕ) (s : Scb) (w w' : World)
    → IsBlock k g s
    → IsSent fd (welcome b s) w.calls w'.calls
    → IsTold fd (code_of g) (id_of g) w'
unfolding welcome told
welcome-IsTold k g b fd s w w' h e = ground arith

module _ (sys : System) (k : Place) (g : Stage) where
  validate-IsStream :
      (r : ReadTokenRsp) (w : World)
      → IsStream k g w
      → Returns
          (λ q.
            IsStream k (record g { status = u_validated }) q.1
            × IsTold k.fd (code_of g) (id_of g) q.1)
          (validate sys k.tunnel k.block r w)
  unfolding validate
  validate-IsStream r w h =
      >>=-Returns _ _ (mark_validated k.tunnel k.block r) _ w (mark-IsStream k g r w h) λ s w1 h1.
        >>=-Returns _ _ (send_tms_msg sys k.tunnel (welcome r.balance s)) _ w1
          (send-tunnel sys k (record g { status = u_validated }) (welcome r.balance s) w1 h1.0)
          λ n w2 h2.
            Returns-map _ _ (tell_dpi sys k.tunnel w2)
              (λ q h3. (
                h3.0,
                rw h3.1 (
                    welcome-IsTold k (record g { status = u_validated }) r.balance k.fd s w1 w2 h1.1
                      h2.1),
              ))
              (tell_dpi-IsStream sys k (record g { status = u_validated }) w2 h2.0)

  -- The recorder's answer, to a client whose token is right.
  pub on_read_token_rsp-IsStream :
      (r : ReadTokenRsp) (w : World)
      → client_fd r ≡ k.fd
      → r.rsp_code ≡ 0
      → strcmp_eq k.token r.token ≡ true
      → IsStream k g w
      → Returns
          (λ q.
            IsStream k (record g { status = u_validated }) q.1
            × IsTold k.fd (code_of g) (id_of g) q.1)
          (on_read_token_rsp sys r w)
  unfolding on_read_token_rsp
  on_read_token_rsp-IsStream r w e0 e1 e2 h = elim (Option-cases (w.conns k.tunnel)) [
    | inl e ↦ ground arith
    | inr (c, e) ↦
        let w' = record w { conns = set w.conns k.tunnel (record c { sdk_verified = 1 }) } in
        let step : on_read_token_rsp sys r w ≡ validate sys k.tunnel k.block r w' = ground arith in
        rw step (validate-IsStream r w' (ground arith))
  ]

-- The id that the counter gives next, and the counter behind it.
abbrev pub next_id : ℕ → ℕ
next_id a = if a == 2 ^ 64 - 1 then 1 else a

-- The stage behind the event that the web server has been reached.
abbrev pub connected_stage : Stage → Stage
connected_stage g = record g {
  connected = 1;
  forward_id = next_id g.aval_forward_id;
  aval_forward_id = add64 (next_id g.aval_forward_id) 1;
}

-- The code of that event.
abbrev pub reached_code : Stage → ℕ
reached_code g = if g.status == 0 then RespCode.agent_estasblished else RespCode.ready

pub establish-IsStream :
    (sys : System) (k : Place) (g : Stage) (w : World)
    → IsStream k g w
    → Returns
        (λ q.
          IsStream k (connected_stage g) q.1
          × IsTold k.fd (reached_code g) (next_id g.aval_forward_id) q.1
          × (q.0 ≡ ok))
        (establish sys k.agent_fd k.agent w)
unfolding establish reached announce new_forward_id send_tms_msg send charge_tunnel
    record_traffic_at record_traffic told
establish-IsStream sys k g w h = ground arith
