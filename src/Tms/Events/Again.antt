-- ===== src/Tms/Events/Again.antt =====
-- The event that a socket can be written, once the web server has been reached.
use https_tunnel_proxy.Base.{
  ℕ, ◌≡◌, refl, inl, inr, some, arith, ◌==◌, if◌then◌else◌, Returns, Returns-map, Bool-cases,
}
use https_tunnel_proxy.Tms.World.{World, System, s_forward, sta_online, sta_inprogress}
use https_tunnel_proxy.Tms.Accounting.{record_traffic}
use https_tunnel_proxy.Tms.World.Action.{◌>>◌, >>=-Returns}
use https_tunnel_proxy.Tms.Connection.{
  send, record_traffic_at, charge_tunnel, send_tms_msg, new_forward_id,
}
use https_tunnel_proxy.Tms.Events.{announce, reached, establish, handle_epo_event}
use https_tunnel_proxy.Tms.Session.Stream.{Place, Stage, IsStream, connected_stage}

-- A stream with its agent in a status, entered under its descriptor.
abbrev pub IsAgentIn : Place → Stage → ℕ → World → Type 0
IsAgentIn k g status w =
    IsStream k g w
    × Returns (λ a. (a.status ≡ status) × (a.cstate ≡ s_forward)) (w.conns k.agent)
    × (w.conn_map k.agent_fd ≡ some k.agent)

-- The status of an agent behind the event.
abbrev pub agent_status_of : Stage → ℕ
agent_status_of g = if g.status == 0 then sta_online else sta_inprogress

-- The stage behind a second such event.
abbrev pub second_stage : Stage → Stage
second_stage g = if g.status == 0 then connected_stage g else connected_stage (connected_stage g)

module _ (sys : System) (k : Place) where
  first-IsAgentIn :
      (g : Stage) (w : World)
      → IsAgentIn k g sta_inprogress w
      → Returns
          (λ q. IsAgentIn k (connected_stage g) (agent_status_of g) q.1)
          (handle_epo_event sys k.agent_fd w)
  unfolding handle_epo_event establish reached announce new_forward_id send_tms_msg send
      charge_tunnel record_traffic_at record_traffic
  first-IsAgentIn g w h = ground arith

  online-IsAgentIn :
      (g : Stage) (w : World)
      → IsAgentIn k g sta_online w
      → Returns (λ q. IsAgentIn k g sta_online q.1) (handle_epo_event sys k.agent_fd w)
  unfolding handle_epo_event
  online-IsAgentIn g w h = ground arith

  second-IsStream :
      (g g' : Stage) (w : World)
      → g'.status ≡ g.status
      → IsAgentIn k g' (agent_status_of g) w
      → Returns
          (λ q. IsStream k (if g.status == 0 then g' else connected_stage g') q.1)
          (handle_epo_event sys k.agent_fd w)
  second-IsStream g g' w e h = elim (Bool-cases (g.status == 0)) [
    | inl z ↦ rw z (
        Returns-map (λ q. IsAgentIn k g' sta_online q.1) _ (handle_epo_event sys k.agent_fd w)
          (λ q a. a.0) (online-IsAgentIn g' w (ground arith)))
    | inr z ↦ rw z (
        Returns-map (λ q. IsAgentIn k (connected_stage g') (agent_status_of g') q.1) _
          (handle_epo_event sys k.agent_fd w) (λ q a. a.0) (first-IsAgentIn g' w (ground arith)))
  ]

  -- When the event that a web server's socket can be written comes twice, the second is without
  -- effect on the stream of a client that is not verified; of one that is, it gives the stream another
  -- forward id, because the agent's status is set to the number of `s_forward`, which is also that of
  -- `sta_inprogress`.
  pub handle_epo_event-twice :
      (g : Stage) (w : World)
      → IsAgentIn k g sta_inprogress w
      → Returns
          (λ q. IsStream k (second_stage g) q.1)
          ((handle_epo_event sys k.agent_fd >> handle_epo_event sys k.agent_fd) w)
  handle_epo_event-twice g w h =
      >>=-Returns _ _ (handle_epo_event sys k.agent_fd) _ w (first-IsAgentIn g w h)
        λ a w1 h1. second-IsStream g (connected_stage g) w1 refl h1
