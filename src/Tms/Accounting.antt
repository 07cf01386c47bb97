-- ===== src/Tms/Accounting.antt =====
-- What a user's streams cost: `RecordTraffic`, `ReportTraffic`, `ReportOrAccumulate`,
-- `ReportAccumulated` of tms/tms/UserMgr.cpp and the answer of the recorder in tms/tms/ConnectMgr.cpp.
-- The reports themselves are log lines: the code that would send them is commented out in the source.
pub mod Ledger
use https_tunnel_proxy.Base.{
  ℕ, ◌+◌, ◌*◌, ◌/◌, ◌%◌, ◌^◌, Bool, ◌&&◌, ◌||◌, not, List, [], ◌∷◌, Option, none, some, length, ltb,
  ◌==◌, if◌then◌else◌,
}
use https_tunnel_proxy.Base.Int.{add64, sub64, signed64, ltb_ℤ, pos}
use https_tunnel_proxy.Wire.Messages.{Timeval}
use https_tunnel_proxy.Tms.Types.{User, Scb, u_validated}

abbrev pub tcp_ack_len : ℕ
tcp_ack_len = 32 + 20

-- `TrafficEst` of a number that is not negative, by whether ACCURATE_TRAFFIC is defined.
unfoldable pub traffic_est : Bool → ℕ → ℕ
traffic_est accurate x = if accurate then x + tcp_ack_len * 2 + x / 1394 * tcp_ack_len else x

-- `Traffic_TCP_hss`, in the same way.
unfoldable pub traffic_tcp_hss : Bool → ℕ
traffic_tcp_hss accurate = if accurate then 5 * tcp_ack_len + 2 * 60 else 0

-- The results 0 and -1.
pub data Status : Type 0 where
  ok failed : Status

abbrev pub min_balance : ℕ
min_balance = 4000

pub record Recorded : Type 0 where
  pub user : User
  pub scb : Option Scb
  pub ret : Status

unfoldable pub record_traffic : User → Option Scb → ℕ → Recorded
record_traffic u none datalen = record { user = u; scb = none; ret = failed }
record_traffic u (some s) datalen =
    let balance = sub64 u.balance datalen in
    record {
      user = record u { balance = balance };
      scb = some (record s { traffic = add64 s.traffic datalen });
      ret =
          if (s.status == u_validated) && ltb_ℤ (signed64 balance) (pos min_balance)
          then failed
          else ok;
    }

-- The log lines `[traffic report]`, `[traffic report lo]` and `[traffic report tr]`.
pub data ReportKind : Type 0 where
  plain local to_recorder : ReportKind

pub record Report : Type 0 where
  pub kind : ReportKind
  pub mobile : ℕ
  pub app : ℕ
  pub traffic : ℕ
  pub btime : Timeval
  pub etime : Timeval
  pub host : List ℕ

-- What the code reads of `scb->tunnel_conn`.
pub record Tunnel : Type 0 where
  pub begin_time : Timeval
  pub curr_host : List ℕ

pub record Reported : Type 0 where
  pub user : User
  pub scb : Scb
  pub reports : List Report
  pub ret : Status

-- sizeof(TrafficReport::host)
abbrev pub host_size : ℕ
host_size = 256

report_of : ReportKind → User → ℕ → Timeval → Timeval → List ℕ → Report
report_of kind u traffic btime etime host = record {
  kind = kind;
  mobile = u.mobile;
  app = u.app;
  traffic = traffic;
  btime = btime;
  etime = etime;
  host = host;
}

abbrev pub zero_time : Timeval
zero_time = record { tv_sec = 0; tv_usec = 0 }

-- The begin time and the host of a report: of the tunnel, if there is one. `none`: the host is copied
-- over the end of its array.
abbrev pub tunnel_fields : Option Tunnel → Option (Timeval × List ℕ)
tunnel_fields none = some (zero_time, [])
tunnel_fields (some t) =
    if ltb host_size (length t.curr_host) then none else some (t.begin_time, t.curr_host)

-- `ReportTraffic`; `now` is the time of its `gettimeofday`.
unfoldable pub report_traffic : Bool → Timeval → User → Scb → Option Tunnel → Option Reported
unfolding report_of
report_traffic accurate now u s tunnel =
    if (s.traffic == 0) || not (s.status == u_validated)
    then some (record { user = u; scb = s; reports = []; ret = ok })
    else (let traffic = add64 s.traffic (traffic_tcp_hss accurate) in
        elim (tunnel_fields tunnel) [
          | none ↦ none
          | some (btime, host) ↦ some (record {
            user = u;
            scb = record s { traffic = 0 };
            reports = report_of ReportKind.plain u traffic btime now host ∷ [];
            ret = ok;
          })
        ])

-- `a < b` as the source writes it on times.
abbrev pub earlier : Timeval → Timeval → Bool
earlier a b = ltb a.tv_sec b.tv_sec || ((a.tv_sec == b.tv_sec) && ltb a.tv_usec b.tv_usec)

-- `accu_start_time` after a report of a stream that began at `btime`.
unfoldable pub accumulate_start : User → Timeval → Timeval → Timeval
accumulate_start u now btime =
    if u.con_report == 0
    then now
    else if earlier u.accu_start_time btime
    then u.accu_start_time
    else btime

-- The part of `ReportOrAccumulate` behind the reading of the tunnel.
unfoldable pub report_with : Timeval → User → Scb → ℕ → List ℕ → Reported
unfolding report_of
report_with later u s traffic host =
    let lo = report_of ReportKind.local u traffic u.accu_start_time later host in
    if not (u.reporting == 0)
    then record {
      user = record u {
        con_report = (u.con_report + 1) % 2 ^ 16;
        traffic = add64 u.traffic traffic;
      };
      scb = record s { traffic = 0 };
      reports = lo ∷ [];
      ret = ok;
    }
    else record {
      user = record u { reporting = 1; traffic = 0 };
      scb = record s { traffic = 0 };
      reports = lo ∷ report_of ReportKind.to_recorder u traffic u.accu_start_time later host ∷ [];
      ret = ok;
    }

-- `ReportOrAccumulate`; `now` and `later` are the times of its calls of `gettimeofday`.
unfoldable pub report_or_accumulate :
    Bool → Timeval → Timeval → User → Scb → Option Tunnel → Option Reported
unfolding report_with accumulate_start
report_or_accumulate accurate now later u s tunnel =
    if s.traffic == 0
    then some (record { user = u; scb = s; reports = []; ret = failed })
    else (let traffic = add64 s.traffic (traffic_tcp_hss accurate) in
        elim tunnel [
          | none ↦ some (record {
            user = u;
            scb = record s { traffic = traffic };
            reports = [];
            ret = failed;
          })
          | some t ↦
              if ltb host_size (length t.curr_host)
              then none
              else some (
                  report_with later
                    (record u { accu_start_time = accumulate_start u now t.begin_time }) s traffic
                    t.curr_host)
        ])

-- `ReportAccumulated`
unfoldable pub report_accumulated : Timeval → User → User × Report
unfolding report_of
report_accumulated now u = (
  record u { traffic = 0; con_report = 0 },
  report_of ReportKind.to_recorder u u.traffic u.accu_start_time now [],
)

-- `HandleRecvMsg` on TRAFFIC_REPORT_RSP, once the user is found.
unfoldable pub on_traffic_report_rsp : Timeval → User → User × List Report
unfolding report_accumulated
on_traffic_report_rsp now u =
    if not (u.traffic == 0)
    then (let (u', r) = report_accumulated now u in (record u' { reporting = 1 }, r ∷ []))
    else (record u { reporting = 0 }, [])
