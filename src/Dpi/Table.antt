-- ===== src/Dpi/Table.antt =====
-- `LvldbMgr` of ic-dpi/ic-dpi/LvldbMgr.cpp: the counters in a cache by client address, and the
-- reports to the recorder. The cache is LevelDB's and is a parameter: what is relied on is that a
-- handle gives the entry just found or inserted, and that a write through it changes no other.
use https_tunnel_proxy.Base.{
  ℕ, ◌≡◌, ◌≢◌, inl, inr, List, [], ◌∷◌, Option, none, some, arith, Returns, Option-cases, All, drop,
  ◌^◌, ◌<◌, ◌∙◌, refl,
}
use https_tunnel_proxy.Wire.Bytes.{frame, header, header_size, be16, le, field, from_le-le}
use https_tunnel_proxy.Wire.Messages.{
  Timeval, SynUserTuple, TrafficReport, encode_traffic_report, decode_traffic_report,
}
use https_tunnel_proxy.Dpi.Counter.Update.{
  IpUserTraffic, cleared, Outcome, on_traffic_report, on_user_login, on_traffic_report_reply,
}
use https_tunnel_proxy.Dpi.Counter.Conserve.{loop_fuel}

-- leveldb::Cache with `IpUserTraffic` values. `write` is an assignment through `Value(h)`.
pub record LruCache : Type 1 where
  pub Cache : Type 0
  pub lookup : Cache → ℕ → Option IpUserTraffic
  pub insert : Cache → ℕ → IpUserTraffic → Cache
  pub write : Cache → ℕ → IpUserTraffic → Cache
  pub lookup-insert : (c : Cache) (k : ℕ) (v : IpUserTraffic) → lookup (insert c k v) k ≡ some v
  pub lookup-write :
      (c : Cache) (k : ℕ) (v w : IpUserTraffic)
      → lookup c k ≡ some w
      → lookup (write c k v) k ≡ some v
  pub lookup-write_ne :
      (c : Cache) (k j : ℕ) (v : IpUserTraffic) → k ≢ j → lookup (write c k v) j ≡ lookup c j

-- The host "-".
abbrev pub no_host : List ℕ
no_host = b'-' ∷ []

-- The report that both senders fill in.
unfoldable pub traffic_report_of : ℕ → Timeval → Timeval → IpUserTraffic → ℕ → TrafficReport
traffic_report_of ip now later d n = record {
  app = d.app;
  mobile = d.mobile;
  traffic = n;
  btime = now;
  etime = later;
  ip = ip;
  hlen = 1;
  host = no_host;
}

abbrev pub reports : ℕ → Timeval → Timeval → IpUserTraffic → Option ℕ → List (List ℕ)
reports ip now later d none = []
reports ip now later d (some n) =
    frame (encode_traffic_report (traffic_report_of ip now later d n)) ∷ []

pub record Fits (u : SynUserTuple) : Type 0 where
  pub mobile : u.mobile < 256 ^ 8
  pub app : u.app < 256 ^ 8
  pub src_ip_be : u.src_ip_be < 256 ^ 4

-- A message to the recorder is a report on this user at this address.
abbrev pub Names : SynUserTuple → List ℕ → Type 0
Names u m =
    ((decode_traffic_report (drop header_size m)).mobile ≡ u.mobile)
    × ((decode_traffic_report (drop header_size m)).app ≡ u.app)
    × ((decode_traffic_report (drop header_size m)).ip ≡ u.src_ip_be)

module _ (lru : LruCache) where
  open lru use {Cache, lookup, insert, write, lookup-insert, lookup-write, lookup-write_ne}

  -- The lookup, and the insertion of a cleared counter where it finds none.
  pub find_or_insert : Cache → ℕ → IpUserTraffic × Cache
  find_or_insert c ip = elim (lookup c ip) [
    | none ↦ (cleared, insert c ip cleared)
    | some d ↦ (d, c)
  ]

  pub login : Cache → SynUserTuple → Cache
  unfolding on_user_login
  login c u =
      let (d, c') = find_or_insert c u.src_ip_be in
      write c' u.src_ip_be (on_user_login d u.src_ip_be u.mobile u.app)

  -- The cache after a call, and the messages sent to the recorder.
  pub record Action : Type 0 where
    pub cache : Cache
    pub sent : List (List ℕ)

  -- The outcome is written through the handle, and a report goes to the recorder by `SendTmsMsg`.
  settle : Cache → ℕ → Timeval → Timeval → IpUserTraffic → Option Outcome → Option Action
  settle c ip now later d none = none
  settle c ip now later d (some o) =
      some (record { cache = write c ip o.counter; sent = reports ip now later d o.report })

  -- `OnTrafficReport`; the times are what `gettimeofday` gives.
  pub traffic_report : Cache → ℕ → Timeval → Timeval → ℕ → ℕ → Option Action
  unfolding settle on_traffic_report find_or_insert
  traffic_report c ip now later traffic fin_type =
      let (d, c') = find_or_insert c ip in
      settle c' ip now later d (on_traffic_report loop_fuel d traffic fin_type)

  -- `OnTrafficReportReply`
  pub traffic_report_reply : Cache → ℕ → Timeval → Timeval → Option Action
  unfolding settle on_traffic_report_reply find_or_insert
  traffic_report_reply c ip now later =
      let (d, c') = find_or_insert c ip in
      settle c' ip now later d (on_traffic_report_reply loop_fuel d)

  lookup-find_or_insert :
      (c : Cache) (ip : ℕ) → lookup (find_or_insert c ip).1 ip ≡ some (find_or_insert c ip).0
  unfolding find_or_insert
  lookup-find_or_insert c ip = elim (Option-cases (lookup c ip)) [
    | inl e ↦ rw (e, find_or_insert) (lookup-insert c ip cleared)
    | inr (d, e) ↦ rw (e, find_or_insert) e
  ]

  -- After a login the address belongs to the user who logged in, and keeps the bytes counted there.
  pub lookup-login :
      (c : Cache) (u : SynUserTuple)
      → lookup (login c u) u.src_ip_be
        ≡ some (record (find_or_insert c u.src_ip_be).0 {
          ip_be = u.src_ip_be;
          mobile = u.mobile;
          app = u.app;
        })
  unfolding login on_user_login
  lookup-login c u = lookup-write _ u.src_ip_be _ _ (lookup-find_or_insert c u.src_ip_be)

  find_or_insert_found :
      (c : Cache) (ip : ℕ) {d : IpUserTraffic} → lookup c ip ≡ some d → find_or_insert c ip ≡ (d, c)
  unfolding find_or_insert
  find_or_insert_found c ip e = rw (e, find_or_insert)

  reports-Names :
      (u : SynUserTuple) (now later : Timeval) (d : IpUserTraffic) (r : Option ℕ)
      → Fits u
      → d.mobile ≡ u.mobile
      → d.app ≡ u.app
      → All (Names u) (reports u.src_ip_be now later d r)
  unfolding traffic_report_of encode_traffic_report decode_traffic_report field frame header be16 le
  reports-Names u now later d none f m a = tt
  reports-Names u now later d (some n) f m a = (
    (
      from_le-le 8 d.mobile (rw m f.mobile) ∙ m,
      from_le-le 8 d.app (rw a f.app) ∙ a,
      from_le-le 4 u.src_ip_be f.src_ip_be,
    ),
    tt,
  )

  settle-Names :
      (c : Cache) (u : SynUserTuple) (now later : Timeval) (d : IpUserTraffic) (o : Option Outcome)
      → Fits u
      → d.mobile ≡ u.mobile
      → d.app ≡ u.app
      → Returns (λ _. Unit) o
      → Returns (λ a. All (Names u) a.sent) (settle c u.src_ip_be now later d o)
  unfolding settle
  settle-Names c u now later d none f m a h = h
  settle-Names c u now later d (some o) f m a h = reports-Names u now later d o.report f m a

  on_traffic_report-Returns :
      (d : IpUserTraffic) (traffic fin_type : ℕ)
      → Returns (λ _. Unit) (on_traffic_report loop_fuel d traffic fin_type)
  unfolding on_traffic_report
  on_traffic_report-Returns d traffic fin_type = ground arith

  -- When a user has just logged in at an address, the next packet there is handled to the end, and a
  -- report that it causes names that user and that address.
  pub traffic_report-login :
      (c : Cache) (u : SynUserTuple) (now later : Timeval) (traffic fin_type : ℕ)
      → Fits u
      → Returns
          (λ a. All (Names u) a.sent)
          (traffic_report (login c u) u.src_ip_be now later traffic fin_type)
  unfolding traffic_report
  traffic_report-login c u now later traffic fin_type f =
      rw (find_or_insert_found (login c u) u.src_ip_be (lookup-login c u))
        (settle-Names _ u now later _ _ f refl refl (on_traffic_report-Returns _ traffic fin_type))

  settle_ne :
      (c : Cache) (ip j : ℕ) (now later : Timeval) (d : IpUserTraffic) (o : Option Outcome)
      → ip ≢ j
      → Returns (λ _. Unit) o
      → Returns (λ a. lookup a.cache j ≡ lookup c j) (settle c ip now later d o)
  unfolding settle
  settle_ne c ip j now later d none n h = h
  settle_ne c ip j now later d (some o) n h = lookup-write_ne c ip j o.counter n

  -- A packet at an address that is in the cache leaves the counters of all other addresses alone.
  pub traffic_report_ne :
      (c : Cache) (ip j : ℕ) (now later : Timeval) (traffic fin_type : ℕ) (d : IpUserTraffic)
      → lookup c ip ≡ some d
      → ip ≢ j
      → Returns
          (λ a. lookup a.cache j ≡ lookup c j)
          (traffic_report c ip now later traffic fin_type)
  unfolding traffic_report
  traffic_report_ne c ip j now later traffic fin_type d e n =
      rw (find_or_insert_found c ip e)
        (settle_ne c ip j now later d _ n (on_traffic_report-Returns d traffic fin_type))
