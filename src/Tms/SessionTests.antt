-- ===== src/Tms/SessionTests.antt =====
-- The uses of the theorems on the session, on the data of Tms/SessionData.
use https_tunnel_proxy.Base.{none, ◌≡◌, refl, inl, inr, some, [], arith, Returns}
use https_tunnel_proxy.Tms.World.Action.{◌>>◌}
use https_tunnel_proxy.Tms.Connection.{new_forward_id}
use https_tunnel_proxy.Tms.SessionData.{sys, tunnel, stream, place, start, rsp, login, fresh}
use https_tunnel_proxy.Recorder.CString.{strlen, c_string}
use https_tunnel_proxy.Tms.Connection.{new_forward_id}
use https_tunnel_proxy.Tms.Removal.{remove_conn}
use https_tunnel_proxy.Tms.Session.{client_fd, on_begin_transmit, strcmp_eq, on_read_token_rsp}
use https_tunnel_proxy.Tms.Login.{ip_or_host, on_login_req}
use https_tunnel_proxy.Tms.Events.{handle_accept_event, establish, inform_shutdown_user}
use https_tunnel_proxy.Tms.Session.Stream.{IsStream, told}
use https_tunnel_proxy.Sdk.Login.{Client, rt_data, rt_incorrect_token}
use https_tunnel_proxy.Tms.Session.EndToEnd.{
  IsInformed, wrong_token, refused_to_the_end, IsForwarding, forwards_in_any_order,
}
use https_tunnel_proxy.Tms.Session.Refused.{refusal, on_read_token_rsp-IsGone}
use https_tunnel_proxy.Tms.Removal.Ends.{IsEntered, IsGone, remove_conn-IsGone}
use https_tunnel_proxy.Tms.Login.Unverified.{IsForwardingUnverified, forwards_unverified}
use https_tunnel_proxy.Tms.Connection.ForwardIds.{issue, new_forward_id-issue}
use https_tunnel_proxy.Tms.Events.Shutdown.{IsLeaked, inform_shutdown_user-IsLeaked}
use https_tunnel_proxy.Tms.Events.Accept.{IsAwaited, Inherits, entry, handle_accept_event-IsAwaited}

stream-IsStream : IsStream place start stream
stream-IsStream = (
  (refl, refl, refl, refl, refl),
  (refl, refl, refl, refl),
  (refl, refl, refl, refl, refl),
  tt,
  refl,
  refl,
  refl,
  refl,
)

stream-IsEntered : IsEntered place start stream
stream-IsEntered = (stream-IsStream, refl, omega arith, omega arith, omega arith)

abbrev client : Client
client = record {
  aval_traffic = 0;
  verified = 0;
  cstate = 0;
  stillneedtoread = 6;
  r_offset = 0;
  login_code = rt_data;
  peer = none;
  g_aval_traffic = 0;
}

forwards_in_any_order_example :
    Returns
      (λ q. IsForwarding place client q.1)
      ((on_read_token_rsp sys (rsp 0) >> establish sys 6 1) stream)
    × Returns
        (λ q. IsForwarding place client q.1)
        ((establish sys 6 1 >> on_read_token_rsp sys (rsp 0)) stream)
unfolding strcmp_eq c_string client_fd
forwards_in_any_order_example =
    forwards_in_any_order sys place start (rsp 0) client stream refl refl refl stream-IsStream
      (omega arith)

refused_to_the_end_example :
    Returns
      (λ q.
        IsGone place [] (some (refusal (rsp 6))) q.1
        × Returns (IsInformed rt_incorrect_token client) (told 5 q.1.calls))
      (on_read_token_rsp sys (rsp 6) stream)
unfolding client_fd
refused_to_the_end_example =
    refused_to_the_end sys place start (rsp 6) client wrong_token stream refl refl stream-IsEntered

on_read_token_rsp-IsGone_example :
    Returns
      (λ q. IsGone place [] (some (refusal (rsp 6))) q.1)
      (on_read_token_rsp sys (rsp 6) stream)
unfolding client_fd
on_read_token_rsp-IsGone_example =
    on_read_token_rsp-IsGone sys place start (rsp 6) stream refl (inl (ground arith))
      stream-IsEntered

remove_conn-IsGone_example :
    Returns (λ q. IsGone place [] (told 5 []) q.1) (remove_conn sys 5 stream)
    × Returns (λ q. IsGone place [] (told 5 []) q.1) (remove_conn sys 6 stream)
remove_conn-IsGone_example = remove_conn-IsGone sys place start stream stream-IsEntered

inform_shutdown_user-IsLeaked_example :
    Returns
      (λ q. IsLeaked place start [] q.1)
      ((inform_shutdown_user sys 6 >> remove_conn sys 6) stream)
inform_shutdown_user-IsLeaked_example =
    inform_shutdown_user-IsLeaked sys place start stream stream-IsEntered

new_forward_id-issue_example : Returns (λ q. q.0 ≡ 4) ((issue 3 >> new_forward_id) stream)
new_forward_id-issue_example = new_forward_id-issue 3 stream refl

handle_accept_event-IsAwaited_example :
    Returns
      (λ q. (q.0 ≡ some 5) × Returns (λ c. IsAwaited 5 c × Inherits (some tunnel) c) (entry 5 q.1))
      (handle_accept_event sys stream)
handle_accept_event-IsAwaited_example =
    handle_accept_event-IsAwaited sys 5 stream refl (inr (ground arith))

forwards_unverified_example :
    Returns
      (λ q. IsForwardingUnverified 0 q.1)
      ((on_login_req sys 0 login >> on_begin_transmit 0 0) fresh)
unfolding strlen c_string ip_or_host
forwards_unverified_example =
    forwards_unverified sys 0 login fresh ((λ calls. tt), λ calls ip port. refl)
      ((refl, refl, refl, refl), ground arith, tt, refl, tt) (omega arith) (omega arith) refl
