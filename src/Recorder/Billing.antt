-- ===== src/Recorder/Billing.antt =====
-- The balance of a user under the TRAFFIC_REPORT handler of trafficRecorder/trafficRecorder/TRNet.cpp.
use https_tunnel_proxy.Base.{
  ℕ, ◌≡◌, ◌⊎◌, refl, true, List, Option, none, some, arith, Bool-cases, inl, inr, Option-cases, ◌∙◌,
  sym,
}
use https_tunnel_proxy.Base.Int.{sub64}
use https_tunnel_proxy.Wire.Messages.{TrafficReport, TrafficReportRsp}
use https_tunnel_proxy.Recorder.Redis.{
  Redis, get_bal, set_bal, rpush_dtl, expire_auth, Reply, nil, text, status, error, integer,
}
use https_tunnel_proxy.Recorder.Traffic.{
  string_of, is_ok, is_stored, answer, set_expire, store_detail, deduct, fetch, resume,
  traffic_report,
}

module _ (redis : Redis) where
  open redis use {Db, exec_command, atoll}

  -- What the handler relies on: `stored` is the number that a user's balance is. Reading it, appending
  -- to a list and setting an expiry change no balance; a write that is answered with OK is done, and
  -- one that is not may be.
  pub record BalanceLaws : Type 0 where
    pub stored : Db → ℕ → ℕ → ℕ
    pub get-keeps :
        (db : Db) (m a : ℕ) → stored (exec_command db (get_bal m a)).1 m a ≡ stored db m a
    pub get-string :
        (db : Db) (m a : ℕ) (s : List ℕ)
        → (exec_command db (get_bal m a)).0 ≡ some (text s)
        → atoll s ≡ stored db m a
    pub set-ok :
        (db : Db) (m a v : ℕ)
        → is_ok (exec_command db (set_bal m a v)).0 ≡ true
        → stored (exec_command db (set_bal m a v)).1 m a ≡ v
    pub set-either :
        (db : Db) (m a v : ℕ)
        → (stored (exec_command db (set_bal m a v)).1 m a ≡ v)
          ⊎ (stored (exec_command db (set_bal m a v)).1 m a ≡ stored db m a)
    pub rpush-keeps :
        (db : Db) (req : TrafficReport)
        → stored
            (exec_command db
              (rpush_dtl req.mobile req.app req.host req.traffic req.btime req.etime)).1
            req.mobile
            req.app
          ≡ stored db req.mobile req.app
    pub expire-keeps :
        (db : Db) (m a n : ℕ) → stored (exec_command db (expire_auth m a n)).1 m a ≡ stored db m a

string_of-text : (r : Option Reply) (s : List ℕ) → string_of r ≡ some s → r ≡ some (text s)
unfolding string_of
string_of-text none s e = ground (arith, e)
string_of-text (some nil) s e = ground (arith, e)
string_of-text (some (text t)) s e = ground (arith, e)
string_of-text (some (status t)) s e = ground (arith, e)
string_of-text (some (error t)) s e = ground (arith, e)
string_of-text (some (integer n)) s e = ground (arith, e)

module _ (redis : Redis) (laws : BalanceLaws redis) where
  open redis use {Db, exec_command, atoll}
  open laws use {stored, get-keeps, get-string, set-ok, set-either, rpush-keeps, expire-keeps}

  -- The report changed the balance as its answer says: 0 is sent only once the traffic is deducted.
  abbrev pub IsCharged : ℕ → TrafficReport → TrafficReportRsp × Db → Type 0
  IsCharged before req (rsp, db) =
      ((rsp.rsp_code ≡ 0) × (stored db req.mobile req.app ≡ sub64 before req.traffic))
      ⊎ ((rsp.rsp_code ≡ 255)
          × ((stored db req.mobile req.app ≡ before)
              ⊎ (stored db req.mobile req.app ≡ sub64 before req.traffic)))

  store_detail-IsCharged :
      (req : TrafficReport) (db : Db) (b : ℕ)
      → stored db req.mobile req.app ≡ sub64 b req.traffic
      → IsCharged b req (store_detail redis req db)
  unfolding store_detail set_expire answer
  store_detail-IsCharged req db b e =
      elim (Bool-cases (
        is_stored
          (exec_command db
            (rpush_dtl req.mobile req.app req.host req.traffic req.btime req.etime)).0)) [
              | inl t ↦ rw t (inl (refl, expire-keeps _ _ _ _ ∙ (rpush-keeps db req ∙ e)))
              | inr f ↦ rw f (inr (refl, inr (rpush-keeps db req ∙ e)))
            ]

  deduct-IsCharged :
      (req : TrafficReport) (str : List ℕ) (db : Db)
      → stored db req.mobile req.app ≡ atoll str
      → IsCharged (atoll str) req (deduct redis req str db)
  unfolding deduct answer
  deduct-IsCharged req str db h =
      elim (Bool-cases
        (is_ok (exec_command db (set_bal req.mobile req.app (sub64 (atoll str) req.traffic))).0)) [
          | inl t ↦ rw t (store_detail-IsCharged req _ (atoll str) (set-ok db _ _ _ t))
          | inr f ↦ rw f (
              inr (
                refl,
                elim (set-either db req.mobile req.app (sub64 (atoll str) req.traffic)) [
                  | inl p ↦ inr p
                  | inr p ↦ inl (p ∙ h)
                ],
              ))
        ]

  store_detail-keeps :
      (req : TrafficReport) (db : Db)
      → stored (store_detail redis req db).1 req.mobile req.app ≡ stored db req.mobile req.app
  unfolding store_detail set_expire
  store_detail-keeps req db =
      elim (Bool-cases (
        is_stored
          (exec_command db
            (rpush_dtl req.mobile req.app req.host req.traffic req.btime req.etime)).0)) [
              | inl t ↦ rw t (expire-keeps _ _ _ _ ∙ rpush-keeps db req)
              | inr f ↦ rw f (rpush-keeps db req)
            ]

  -- What is written depends on the balance that was read, and not on the one that is stored by now.
  deduct-ok :
      (req : TrafficReport) (str : List ℕ) (db : Db)
      → (deduct redis req str db).0.rsp_code ≡ 0
      → stored (deduct redis req str db).1 req.mobile req.app ≡ sub64 (atoll str) req.traffic
  unfolding deduct answer
  deduct-ok req str db =
      elim (Bool-cases
        (is_ok (exec_command db (set_bal req.mobile req.app (sub64 (atoll str) req.traffic))).0)) [
          | inl t ↦ λ ok. rw t (store_detail-keeps req _ ∙ set-ok db _ _ _ t)
          | inr f ↦ rw f (λ ok. ground (arith, ok))
        ]

  fetch-string :
      (req : TrafficReport) (db : Db) (s : List ℕ)
      → (fetch redis req db).0 ≡ some s
      → atoll s ≡ stored db req.mobile req.app
  unfolding fetch
  fetch-string req db s e = get-string db req.mobile req.app s (string_of-text _ s e)

  fetch-keeps :
      (req : TrafficReport) (db : Db)
      → stored (fetch redis req db).1 req.mobile req.app ≡ stored db req.mobile req.app
  unfolding fetch
  fetch-keeps req db = get-keeps db req.mobile req.app

  resume-IsCharged :
      (req : TrafficReport) (db : Db)
      → IsCharged (stored db req.mobile req.app) req (resume redis req (fetch redis req db))
  unfolding resume fetch answer
  resume-IsCharged req db =
      elim (Option-cases (string_of (exec_command db (get_bal req.mobile req.app)).0)) [
        | inl e ↦ rw e (inr (refl, inl (get-keeps db req.mobile req.app)))
        | inr (s, e) ↦
            let g = get-string db req.mobile req.app s (string_of-text _ s e) in
            rw (e, sym g) (deduct-IsCharged req s _ (get-keeps db req.mobile req.app ∙ sym g))
      ]

  -- The report is answered with 0 only if the stored balance is less by the traffic, modulo 2 ^ 64;
  -- every other answer is 255, and then the balance is less by the traffic or as it was. This holds
  -- when no other handler runs between the commands.
  pub traffic_report-charges :
      (req : TrafficReport) (db : Db)
      → IsCharged (stored db req.mobile req.app) req (traffic_report redis req db)
  unfolding traffic_report
  traffic_report-charges req db = resume-IsCharged req db

  -- Two reports on one user whose handlers both read the balance before either writes it: when both
  -- are answered with 0, the first one's traffic is not deducted.
  pub traffic_report-loses_update :
      (req₁ req₂ : TrafficReport) (db : Db) (s₁ s₂ : List ℕ)
      → req₁.mobile ≡ req₂.mobile
      → req₁.app ≡ req₂.app
      → (fetch redis req₁ db).0 ≡ some s₁
      → (fetch redis req₂ (fetch redis req₁ db).1).0 ≡ some s₂
      → let db₁ = (resume redis req₁ (some s₁, (fetch redis req₂ (fetch redis req₁ db).1).1)).1 in
        let r₂ = resume redis req₂ (some s₂, db₁) in
        r₂.0.rsp_code ≡ 0
        → stored r₂.1 req₂.mobile req₂.app ≡ sub64 (stored db req₂.mobile req₂.app) req₂.traffic
  unfolding resume
  traffic_report-loses_update req₁ req₂ db s₁ s₂ e₁ e₂ f₁ f₂ ok =
      let b = fetch-string req₂ _ s₂ f₂ in
      let k = fetch-keeps req₁ db in deduct-ok req₂ s₂ _ ok ∙ rw (b, sym e₁, sym e₂, k) refl
