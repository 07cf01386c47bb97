-- ===== src/Tms/Session/Complete.antt =====
-- From the login to the forwarding: the recorder's answer and the web server's, in both orders, and the
-- message BEGIN_TRANSMIT.
use https_tunnel_proxy.Base.{
  ℕ, ◌%◌, ◌^◌, ◌<◌, ◌≡◌, ◌≢◌, ◌↔◌, true, none, some, arith, Returns, Returns-map,
}
use https_tunnel_proxy.Wire.RespCode
use https_tunnel_proxy.Wire.Messages.{ReadTokenRsp}
use https_tunnel_proxy.Tms.Types.{u_validated}
use https_tunnel_proxy.Tms.World.{World, System, s_header, s_forward}
use https_tunnel_proxy.Tms.World.Action.{◌>>◌, >>=-Returns}
use https_tunnel_proxy.Tms.Session.{client_fd, on_begin_transmit, strcmp_eq, on_read_token_rsp}
use https_tunnel_proxy.Tms.Events.{establish}
use https_tunnel_proxy.Tms.Session.Stream.{
  Place, Stage, IsStream, IsTold, connected_stage, next_id, on_read_token_rsp-IsStream,
  establish-IsStream,
}

-- The stage of a stream that is verified and connected.
abbrev pub final_stage : Stage → Stage
final_stage g = connected_stage (record g { status = u_validated })

abbrev pub IsReady : {A : Type 0} → Place → Stage → A × World → Type 0
IsReady k g q =
    IsStream k (final_stage g) q.1 × IsTold k.fd RespCode.ready (next_id g.aval_forward_id) q.1

module _ (sys : System) (k : Place) (g : Stage) (r : ReadTokenRsp) (w : World)
    (e0 : client_fd r ≡ k.fd) (e1 : r.rsp_code ≡ 0) (e2 : strcmp_eq k.token r.token ≡ true)
    (h : IsStream k g w) where
  token_first :
      Returns (IsReady k g) ((on_read_token_rsp sys r >> establish sys k.agent_fd k.agent) w)
  token_first =
      >>=-Returns _ _ (on_read_token_rsp sys r) _ w
        (on_read_token_rsp-IsStream sys k g r w e0 e1 e2 h)
        λ a w1 h1.
          Returns-map _ _ (establish sys k.agent_fd k.agent w1) (λ q h2. (h2.0, h2.1))
            (establish-IsStream sys k (record g { status = u_validated }) w1 h1.0)

  agent_first :
      Returns (IsReady k g) ((establish sys k.agent_fd k.agent >> on_read_token_rsp sys r) w)
  agent_first =
      >>=-Returns _ _ (establish sys k.agent_fd k.agent) _ w (establish-IsStream sys k g w h)
        λ a w1 h1. on_read_token_rsp-IsStream sys k (connected_stage g) r w1 e0 e1 e2 h1.0

  -- Of the events that the recorder accepts a client's token and that its web server has been
  -- reached, in either order, both are handled without a fault, and the last that the client is told
  -- is READY with the next forward id, which its control block then has, verified and connected.
  pub login_in_any_order :
      Returns (IsReady k g) ((on_read_token_rsp sys r >> establish sys k.agent_fd k.agent) w)
      × Returns (IsReady k g) ((establish sys k.agent_fd k.agent >> on_read_token_rsp sys r) w)
  login_in_any_order = (token_first, agent_first)

-- The mode in which a tunnel is.
abbrev pub mode : Place → World → ℕ
mode k w = elim (w.conns k.tunnel) [ none ↦ s_header | some c ↦ c.cstate ]

-- BEGIN_TRANSMIT switches a tunnel that is not forwarding to forwarding exactly if its id, which has 32
-- bits, is that of the control block: whether the client has been verified, and whether the web server
-- has been reached, plays no part.
pub on_begin_transmit-IsStream :
    (k : Place) (g : Stage) (w : World) (id : ℕ)
    → IsStream k g w
    → mode k w ≢ s_forward
    → Returns
        (λ q. (mode k q.1 ≡ s_forward) ↔ (g.forward_id ≡ id % 2 ^ 32))
        (on_begin_transmit k.tunnel id w)
unfolding on_begin_transmit
on_begin_transmit-IsStream k g w id h n = ground arith

pub on_begin_transmit-mode :
    (k : Place) (g : Stage) (w : World)
    → IsStream k g w
    → g.forward_id < 2 ^ 32
    → Returns (λ q. mode k q.1 ≡ s_forward) (on_begin_transmit k.tunnel g.forward_id w)
unfolding on_begin_transmit
on_begin_transmit-mode k g w h l = ground arith
