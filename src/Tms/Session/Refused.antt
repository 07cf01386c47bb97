-- ===== src/Tms/Session/Refused.antt =====
-- A client whose token the recorder does not accept.
use https_tunnel_proxy.Base.{ℕ, ◌≡◌, sym, ◌≢◌, ◌⊎◌, false, Option, some, List, arith, Returns}
use https_tunnel_proxy.Wire.Messages.{LoginRsp, ReadTokenRsp}
use https_tunnel_proxy.Tms.Accounting.{record_traffic}
use https_tunnel_proxy.Tms.World.{World, System}
use https_tunnel_proxy.Tms.World.Action.{◌>>=◌, conn_at, edit_conn, >>=-Returns}
use https_tunnel_proxy.Tms.Connection.{send, record_traffic_at, charge_tunnel, send_tms_msg}
use https_tunnel_proxy.Tms.Removal.{remove_conn}
use https_tunnel_proxy.Tms.Session.{client_fd, strcmp_eq, login_answer, refuse, on_read_token_rsp}
use https_tunnel_proxy.Tms.Session.Stream.{Place, Stage, told}
use https_tunnel_proxy.Tms.Removal.Ends.{IsEntered, IsGone, remove_conn-IsGone}

-- The answer to a client that is refused.
abbrev pub refusal : ReadTokenRsp → LoginRsp
refusal r = record { rsp_code = r.rsp_code; avalable_traffic = 0; forward_id = 0 }

module _ (sys : System) (k : Place) (g : Stage) where
  send-IsEntered :
      (r : ReadTokenRsp) (w : World)
      → IsEntered k g w
      → Returns
          (λ q.
            IsEntered k g q.1
            × (q.1.scm.scb_free_list ≡ w.scm.scb_free_list)
            × (told k.fd q.1.calls ≡ some (refusal r)))
          (send_tms_msg sys k.tunnel (login_answer r.rsp_code 0 0) w)
  unfolding send_tms_msg send charge_tunnel record_traffic_at record_traffic told
  send-IsEntered r w h = ground arith

  exit-IsEntered :
      (answer : Option LoginRsp) (free : List ℕ) (w : World)
      → IsEntered k g w × (w.scm.scb_free_list ≡ free) × (told k.fd w.calls ≡ answer)
      → Returns
          (λ q. IsEntered k g q.1 × (q.1.scm.scb_free_list ≡ free) × (told k.fd q.1.calls ≡ answer))
          (edit_conn k.tunnel (λ c. record c { exit = 1 }) w)
  exit-IsEntered answer free w h = ground arith

  refuse-IsGone :
      (r : ReadTokenRsp) (w : World)
      → IsEntered k g w
      → Returns (λ q. IsGone k w.scm.scb_free_list (some (refusal r)) q.1) (refuse sys k.tunnel r w)
  unfolding refuse
  refuse-IsGone r w h =
      >>=-Returns _ _ (send_tms_msg sys k.tunnel (login_answer r.rsp_code 0 0)) _ w
        (send-IsEntered r w h)
        λ n w1 h1.
          >>=-Returns _ _ (edit_conn k.tunnel (λ c. record c { exit = 1 })) _ w1
            (exit-IsEntered (some (refusal r)) w.scm.scb_free_list w1 h1)
            λ a w2 h2.
              let step : (conn_at k.tunnel >>= λ c. remove_conn sys c.sock_fd) w2
                  ≡ remove_conn sys k.fd w2 =
                ground arith in
              rw step (rw (sym h2.1) (rw (sym h2.2) (remove_conn-IsGone sys k g w2 h2.0).0))

  -- A client whose token the recorder refuses, or answers with another token, is told the recorder's
  -- code, and then nothing is left of its stream: both connections are deleted and no longer entered,
  -- and the control block is reset and at the end of the free list.
  pub on_read_token_rsp-IsGone :
      (r : ReadTokenRsp) (w : World)
      → client_fd r ≡ k.fd
      → (r.rsp_code ≢ 0) ⊎ (strcmp_eq k.token r.token ≡ false)
      → IsEntered k g w
      → Returns
          (λ q. IsGone k w.scm.scb_free_list (some (refusal r)) q.1)
          (on_read_token_rsp sys r w)
  unfolding on_read_token_rsp
  on_read_token_rsp-IsGone r w e f h =
      let step : on_read_token_rsp sys r w ≡ refuse sys k.tunnel r w = ground arith in
      rw step (refuse-IsGone r w h)
