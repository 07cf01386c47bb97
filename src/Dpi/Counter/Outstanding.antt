-- ===== src/Dpi/Counter/Outstanding.antt =====
-- The meter and the recorder as a protocol: ic-dpi/ic-dpi/LvldbMgr.cpp, where the recorder answers
-- each report at most once.
use https_tunnel_proxy.Base.{ℕ, ◌+◌, ◌≤◌, ◌≡◌, Option, none, some, arith}
use https_tunnel_proxy.Dpi.Counter.Update.{
  IpUserTraffic, cleared, Outcome, on_traffic_report, on_user_login, on_traffic_report_reply,
}
use https_tunnel_proxy.Dpi.Counter.Conserve.{Event, packet, login, answer, step}

pub record Session : Type 0 where
  pub counter : IpUserTraffic
  -- The reports that the recorder has not answered yet.
  pub unanswered : ℕ

abbrev pub count : Option ℕ → ℕ
count none = 0
count (some n) = 1

abbrev pub answers : Event → ℕ
answers answer = 1
answers _ = 0

-- The counter takes an event; an answer needs a report that waits for one.
pub data Step (s t : Session) : Type 0 where
  takes :
      (e : Event) (o : Outcome)
      → answers e ≤ s.unanswered
      → step s.counter e ≡ some o
      → t.counter ≡ o.counter
      → t.unanswered + answers e ≡ s.unanswered + count o.report
      → Step s t

pub data Reach (s : Session) : Session → Type 0 where
  here : Reach s s
  next : {t u : Session} → Reach s t → Step t u → Reach s u

abbrev pub Tracks : Session → Type 0
Tracks s = (s.unanswered ≡ s.counter.reporting) × (s.unanswered ≤ 1)

step-Tracks :
    (d : IpUserTraffic) (e : Event) (o : Outcome)
    → d.reporting ≤ 1
    → answers e ≤ d.reporting
    → step d e ≡ some o
    → (o.counter.reporting + answers e ≡ d.reporting + count o.report) × (o.counter.reporting ≤ 1)
unfolding step on_traffic_report on_user_login on_traffic_report_reply
step-Tracks d (packet traffic fin_type) o h a e = ground arith
step-Tracks d (login ip mobile app) o h a e = ground arith
step-Tracks d answer o h a e = ground arith

Step-Tracks : {s t : Session} → Step s t → Tracks s → Tracks t
Step-Tracks {s} (takes e o a r c n) h =
    ground (arith, step-Tracks s.counter e o (omega arith) (omega arith) r)

abbrev pub opening : Session
opening = record { counter = cleared; unanswered = 0 }

Reach-Tracks : {s t : Session} → Reach s t → Tracks s → Tracks t
Reach-Tracks here h = h
Reach-Tracks (next r st) h = Step-Tracks st (Reach-Tracks r h)

-- While the recorder answers each report at most once, the meter never has two unanswered reports of
-- an address, and its `reporting` flag says whether it has one.
pub Reach-reporting : {s : Session} → Reach opening s → Tracks s
Reach-reporting r = Reach-Tracks r (omega arith)
