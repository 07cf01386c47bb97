-- ===== src/Tms/Inform/Asking.antt =====
-- The login of a client for a host whose address is not known, up to the question to the name server.
use https_tunnel_proxy.Base.{
  ℕ, ◌<◌, ◌≡◌, refl, ◌≢◌, Bool, true, false, none, some, List, [], ◌∷◌, arith, length, take,
  Returns, get_elem?,
}
use https_tunnel_proxy.Recorder.CString.{strlen}
use https_tunnel_proxy.Tms.Dns.{req_fill}
use https_tunnel_proxy.Tms.WaitLists.{UscbId}
use https_tunnel_proxy.Tms.Types.{make_scb}
use https_tunnel_proxy.Tms.Accounting.{record_traffic}
use https_tunnel_proxy.Tms.ScbMgr.{new_scb}
use https_tunnel_proxy.Tms.World.{World, System, t_tunnel, t_dns, t_center}
use https_tunnel_proxy.Tms.World.Action.{
  Action, pure, gets, pointer, ◌>>=◌, ◌>>◌, skip, edit_conn, >>=-Returns,
}
use https_tunnel_proxy.Tms.Connection.{
  send, record_traffic_at, charge_tunnel, send_tms_msg, send_msg, gettimeofday, new_scb_at,
  enter_scb, create_new_scb, create_scb, enter_user, retrieve_user,
}
use https_tunnel_proxy.Tms.Login.{
  warn, finish_login, LoginReq, ip_or_host, store_token, host_of, take_request, ask_center,
  add_wait_lists, ask_dns, reach_host,
}
use https_tunnel_proxy.Tms.ScbMgr.{next_number}
use https_tunnel_proxy.Tms.Inform.Waiting.{LeadsTo}
use https_tunnel_proxy.Tms.Login.Again.{HasPool, IsMapped}

-- The number of the next block is new in a user's tree, and the block is there.
abbrev pub IsNumberFree : LoginReq → World → Type 0
IsNumberFree r w =
    (elim (w.user_map r.mobile r.app) [
      | none ↦ w.scb_trees w.next_user (next_number w.scm) ≡ none
      | some u ↦ w.scb_trees u (next_number w.scm) ≡ none
    ])
    × (elim (get_elem? w.scm.scb_free_list 0) [
      | none ↦ Unit
      | some b ↦ Returns (λ s. Unit {0}) (w.scm.heap b)
    ])

-- What stays as it is until the name server is asked.
abbrev pub IsQuiet : ℕ → World → Type 0
IsQuiet p w = HasPool t_dns w.dns_pool w × (p ≢ w.next_conn) × (w.waiting_scb ≡ [])

-- A tunnel that has not logged in, when nobody waits for the name server.
abbrev pub IsCaller : ℕ → LoginReq → List ℕ → World → Type 0
IsCaller p r host w =
    Returns (λ c. (c.type ≡ t_tunnel) × (c.user ≡ none) × (c.scb ≡ none)) (w.conns p)
    × IsMapped r w
    × HasPool t_center w.center_pool w
    × IsQuiet p w
    × IsNumberFree r w
    × (w.cache host ≡ none)

-- The tunnel once its user is found.
abbrev pub IsNamed : ℕ → LoginReq → ℕ → List ℕ → World → Type 0
IsNamed p r up host w =
    Returns (λ c. (c.type ≡ t_tunnel) × (c.user ≡ some up) × (c.scb ≡ none)) (w.conns p)
    × (w.user_map r.mobile r.app ≡ some up)
    × Returns (λ x. (x.mobile ≡ r.mobile) × (x.app ≡ r.app)) (w.users up)
    × IsQuiet p w
    × IsNumberFree r w
    × (w.cache host ≡ none)

-- The entry that waits.
abbrev pub entry_of : LoginReq → ℕ → UscbId
entry_of r k = record { mobile = r.mobile; app = r.app; scbid = k }

-- The tunnel while it waits for the name server.
abbrev pub IsWaiting : ℕ → LoginReq → List ℕ → World → Type 0
IsWaiting p r host w =
    Returns
      (λ c.
        Returns (λ up. Returns (λ sp. LeadsTo (entry_of r w.scm.aval_pcb_id) up sp p up w) c.scb)
          c.user)
      (w.conns p)
    × (w.waiting_scb ≡ (host, entry_of r w.scm.aval_pcb_id) ∷ [])

module _ (sys : System) (p : ℕ) (r : LoginReq) (host : List ℕ) where
  pub take_request-IsCaller :
      (w : World)
      → strlen r.token < 32
      → r.host_len < length r.host
      → IsCaller p r host w
      → Returns (λ q. IsCaller p r host q.1 × (q.0 ≡ take r.host_len r.host)) (take_request p r w)
  unfolding take_request store_token host_of
  take_request-IsCaller w t l h = ground arith

  pub warn-IsCaller :
      (bad : Bool) (w : World)
      → IsCaller p r host w
      → Returns (λ q. IsCaller p r host q.1) ((warn sys p bad) w)
  unfolding warn send_tms_msg send charge_tunnel record_traffic_at record_traffic
  warn-IsCaller bad w h = ground arith

  pub ask_center-IsCaller :
      (w : World)
      → IsCaller p r host w
      → Returns (λ q. IsCaller p r host q.1) (ask_center sys p r w)
  unfolding ask_center send_tms_msg send charge_tunnel record_traffic_at record_traffic
  ask_center-IsCaller w h = ground arith

  -- `retrieve_user` has found or made the user.
  abbrev pub HasFound : ℕ → World → Type 0
  HasFound up w =
      IsCaller p r host w
      × (w.user_map r.mobile r.app ≡ some up)
      × Returns (λ x. (x.mobile ≡ r.mobile) × (x.app ≡ r.app)) (w.users up)

  pub retrieve_user-HasFound :
      (w : World)
      → IsCaller p r host w
      → Returns (λ q. HasFound q.0 q.1) (retrieve_user sys r.mobile r.app w)
  unfolding retrieve_user gettimeofday enter_user
  retrieve_user-HasFound w h = ground arith

  pub name-IsNamed :
      (up : ℕ) (w : World)
      → HasFound up w
      → Returns (λ q. IsNamed p r up host q.1) (edit_conn p (λ c. record c { user = some up }) w)
  name-IsNamed up w h = ground arith

  create_scb-LeadsTo :
      (up : ℕ) (w : World)
      → IsNamed p r up host w
      → Returns
          (λ q.
            Returns (λ c. (c.scb ≡ some q.0) × (c.user ≡ some up)) (q.1.conns p)
            × LeadsTo (entry_of r q.1.scm.aval_pcb_id) up q.0 p up q.1
            × Returns (λ s. (s.scbid ≡ q.1.scm.aval_pcb_id) × (s.user ≡ some up)) (q.1.scm.heap q.0)
            × Returns (λ x. (x.mobile ≡ r.mobile) × (x.app ≡ r.app)) (q.1.users up)
            × IsQuiet p q.1)
          (create_scb sys up p none w)
  unfolding create_scb create_new_scb new_scb_at new_scb gettimeofday enter_scb make_scb
  create_scb-LeadsTo up w h = ground arith

  -- The last steps of `ask_dns`.
  abbrev ask : ℕ → ℕ → Action (Unit {0})
  ask number sp = do
    add_wait_lists host sp
    pool ← gets (λ w. w.dns_pool)
    d ← pointer (get_elem? pool 0)
    send_msg sys d (req_fill number host)
    skip

  ask-IsWaiting :
      (number up sp : ℕ) (w : World)
      → Returns (λ c. (c.scb ≡ some sp) × (c.user ≡ some up)) (w.conns p)
      → LeadsTo (entry_of r w.scm.aval_pcb_id) up sp p up w
      → Returns (λ s. (s.scbid ≡ w.scm.aval_pcb_id) × (s.user ≡ some up)) (w.scm.heap sp)
      → Returns (λ x. (x.mobile ≡ r.mobile) × (x.app ≡ r.app)) (w.users up)
      → IsQuiet p w
      → Returns (λ q. IsWaiting p r host q.1) (ask number sp w)
  unfolding add_wait_lists send_msg send
  ask-IsWaiting number up sp w c l s u q = ground arith

  ask_dns-IsWaiting :
      (up : ℕ) (w : World)
      → IsNamed p r up host w
      → Returns (λ q. IsWaiting p r host q.1) (ask_dns sys p up host w)
  unfolding ask_dns
  ask_dns-IsWaiting up w h =
      >>=-Returns _ _ (create_scb sys up p none) _ w (create_scb-LeadsTo up w h)
        λ sp w1 h1. ask-IsWaiting (sys.random w.calls) up sp w1 h1.0 h1.1 h1.2 h1.3 h1.4

  reach_host-IsWaiting :
      (up : ℕ) (w : World)
      → ip_or_host 0 host ≡ false
      → IsNamed p r up host w
      → Returns (λ q. IsWaiting p r host q.1 × (q.0 ≡ true)) (reach_host sys p up r host w)
  unfolding reach_host
  reach_host-IsWaiting up w e h =
      let step : reach_host sys p up r host w ≡ (ask_dns sys p up host >> pure true) w =
        ground arith in
      rw step (
        >>=-Returns _ _ (ask_dns sys p up host) _ w (ask_dns-IsWaiting up w h)
          (λ x w1 h1. (h1, refl)))

  pub reach_got-IsWaiting :
      (up : ℕ) (got : List ℕ) (w : World)
      → got ≡ host
      → ip_or_host 0 host ≡ false
      → IsNamed p r up host w
      → Returns (λ q. IsWaiting p r host q.1 × (q.0 ≡ true)) (reach_host sys p up r got w)
  reach_got-IsWaiting up got w e f h = rw e (reach_host-IsWaiting up w f h)

  pub finish-IsWaiting :
      (goes_on : Bool) (w : World)
      → IsWaiting p r host w
      → Returns (λ q. IsWaiting p r host q.1) ((finish_login sys p goes_on) w)
  unfolding finish_login send_tms_msg send charge_tunnel record_traffic_at record_traffic
  finish-IsWaiting goes_on w h = ground arith
