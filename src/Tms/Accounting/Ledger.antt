-- ===== src/Tms/Accounting/Ledger.antt =====
-- A user with several streams: the operations of tms/tms/UserMgr.cpp one after the other.
use https_tunnel_proxy.Base.{
  ℕ, zero, suc, ◌+◌, ◌%◌, ◌^◌, ◌≤◌, ◌<◌, ◌≡◌, refl, ◌⊎◌, Bool, false, List, [], ◌∷◌, ◌++◌, Option,
  none, some, arith, length, get_elem?, set, length-set, get_elem?_below, All, ◌==◌, if◌then◌else◌,
  Returns,
}
use https_tunnel_proxy.Wire.Messages.{Timeval}
use https_tunnel_proxy.Tms.Types.{User, Scb}
use https_tunnel_proxy.Tms.Accounting.{
  traffic_tcp_hss, record_traffic, ReportKind, Report, Tunnel, Reported, host_size,
  report_or_accumulate, on_traffic_report_rsp,
}

pub record Ledger : Type 0 where
  pub user : User
  pub streams : List Scb

-- Bytes on a stream, the end of a stream, and the answer of the recorder to a report.
pub data Event : Type 0 where
  carry : ℕ → ℕ → Event
  close : ℕ → Timeval → Timeval → Tunnel → Event
  answer : Timeval → Event

pub record Entry : Type 0 where
  pub ledger : Ledger
  pub reports : List Report

carry_on : Ledger → ℕ → ℕ → Option Scb → Entry
carry_on l i n none = record { ledger = l; reports = [] }
carry_on l i n (some s) = elim (record_traffic l.user (some s) n).scb [
  | none ↦ record { ledger = l; reports = [] }
  | some s' ↦ record {
    ledger = record {
      user = (record_traffic l.user (some s) n).user;
      streams = set l.streams i s';
    };
    reports = [];
  }
]

close_with : Ledger → ℕ → Option Reported → Option Entry
close_with l i none = none
close_with l i (some r) = some (record {
  ledger = record { user = r.user; streams = set l.streams i r.scb };
  reports = r.reports;
})

close_on : Bool → Ledger → ℕ → Timeval → Timeval → Tunnel → Option Scb → Option Entry
unfolding close_with
close_on accurate l i now later t none = some (record { ledger = l; reports = [] })
close_on accurate l i now later t (some s) =
    close_with l i (report_or_accumulate accurate now later l.user s (some t))

unfoldable pub step : Bool → Ledger → Event → Option Entry
unfolding carry_on close_on
step accurate l (carry i n) = some (carry_on l i n (get_elem? l.streams i))
step accurate l (close i now later t) = close_on accurate l i now later t (get_elem? l.streams i)
step accurate l (answer now) = some (record {
  ledger = record l { user = (on_traffic_report_rsp now l.user).0 };
  reports = (on_traffic_report_rsp now l.user).1;
})

abbrev pub total : List Scb → ℕ
total [] = 0
total (s ∷ ss) = s.traffic + total ss

abbrev pub is_to_recorder : ReportKind → ℕ → ℕ
is_to_recorder ReportKind.to_recorder n = n
is_to_recorder _ n = 0

-- The bytes that are reported to the recorder.
abbrev pub reported : List Report → ℕ
reported [] = 0
reported (r ∷ rs) = is_to_recorder r.kind r.traffic + reported rs

-- What the user has used and is not reported yet.
abbrev pub owed : Ledger → ℕ
owed l = l.user.traffic + total l.streams

abbrev stream_cost : ℕ → Option Scb → ℕ
stream_cost hss none = 0
stream_cost hss (some s) = if s.traffic == 0 then 0 else hss

abbrev carried : ℕ → Option Scb → ℕ
carried n none = 0
carried n (some s) = n

-- What an event adds: the bytes carried, and the cost of the handshakes where a used stream ends.
abbrev pub cost : Bool → Ledger → Event → ℕ
cost accurate l (carry i n) = carried n (get_elem? l.streams i)
cost accurate l (close i _ _ _) = stream_cost (traffic_tcp_hss accurate) (get_elem? l.streams i)
cost accurate l (answer _) = 0

abbrev pub HostFits : Event → Type 0
HostFits (carry _ _) = Unit
HostFits (close _ _ _ t) = length t.curr_host ≤ host_size
HostFits (answer _) = Unit

-- Nothing is put aside while no report waits for its answer.
abbrev pub IsSettled : User → Type 0
IsSettled u = (u.traffic ≡ 0) ⊎ (0 < u.reporting)

total-set :
    (ss : List Scb) (i : ℕ) (s s' : Scb)
    → get_elem? ss i ≡ some s
    → total (set ss i s') + s.traffic ≡ total ss + s'.traffic
total-set [] i s s' e = cc
total-set (x ∷ ss) zero s s' e = ground arith
total-set (x ∷ ss) (suc i) s s' e = omega (arith, total-set ss i s s' e)

total-le : (ss : List Scb) (i : ℕ) (s : Scb) → get_elem? ss i ≡ some s → s.traffic ≤ total ss
total-le [] i s e = cc
total-le (x ∷ ss) zero s e = ground arith
total-le (x ∷ ss) (suc i) s e = omega (arith, total-le ss i s e)

abbrev pub Keeps : Bool → Ledger → Event → Entry → Type 0
Keeps accurate l e r =
    (reported r.reports + owed r.ledger ≡ owed l + cost accurate l e) × IsSettled r.ledger.user

carry_on-Keeps :
    (accurate : Bool) (l : Ledger) (i n : ℕ) (o : Option Scb)
    → get_elem? l.streams i ≡ o
    → IsSettled l.user
    → owed l + carried n o < 2 ^ 64
    → (reported (carry_on l i n o).reports + owed (carry_on l i n o).ledger ≡ owed l + carried n o)
      × IsSettled (carry_on l i n o).ledger.user
unfolding carry_on record_traffic
carry_on-Keeps accurate l i n none e w h = (omega arith, w)
carry_on-Keeps accurate l i n (some s) e w h = ground (
  arith,
  total-le l.streams i s e,
  total-set l.streams i s (record s { traffic = (s.traffic + n) % 2 ^ 64 }) e,
)

close_on-Keeps :
    (accurate : Bool) (l : Ledger) (i : ℕ) (now later : Timeval) (t : Tunnel) (o : Option Scb)
    → get_elem? l.streams i ≡ o
    → length t.curr_host ≤ host_size
    → IsSettled l.user
    → owed l + stream_cost (traffic_tcp_hss accurate) o < 2 ^ 64
    → Returns
        (λ r.
          (reported r.reports + owed r.ledger ≡ owed l + stream_cost (traffic_tcp_hss accurate) o)
          × IsSettled r.ledger.user)
        (close_on accurate l i now later t o)
unfolding close_on report_or_accumulate
close_on-Keeps accurate l i now later t none e f w h = (omega arith, w)
close_on-Keeps accurate l i now later t (some s) e f w h = ground (
  arith,
  total-le l.streams i s e,
  total-set l.streams i s s e,
  total-set l.streams i s (record s { traffic = 0 }) e,
)

-- One event loses no byte and reports none twice: what it reports to the recorder and what is still
-- owed are together what was owed before and what the event adds, if that sum fits 64 bits; and what
-- is put aside waits for an answer. The event is a stream's data, its end or the recorder's answer.
pub step-Keeps :
    (accurate : Bool) (l : Ledger) (e : Event)
    → IsSettled l.user
    → HostFits e
    → owed l + cost accurate l e < 2 ^ 64
    → Returns (Keeps accurate l e) (step accurate l e)
unfolding step
step-Keeps accurate l (carry i n) w f h =
    carry_on-Keeps accurate l i n (get_elem? l.streams i) refl w h
step-Keeps accurate l (close i now later t) w f h =
    close_on-Keeps accurate l i now later t (get_elem? l.streams i) refl f w h
step-Keeps accurate l (answer now) w f h = unfold on_traffic_report_rsp in ground arith

close_on-length :
    (accurate : Bool) (l : Ledger) (i : ℕ) (now later : Timeval) (t : Tunnel) (o : Option Scb)
    → length t.curr_host ≤ host_size
    → Returns
        (λ r. length r.ledger.streams ≡ length l.streams)
        (close_on accurate l i now later t o)
unfolding close_on report_or_accumulate
close_on-length accurate l i now later t none f = refl
close_on-length accurate l i now later t (some s) f =
    ground (arith, length-set l.streams i s, length-set l.streams i (record s { traffic = 0 }))

step-length :
    (accurate : Bool) (l : Ledger) (e : Event)
    → HostFits e
    → Returns (λ r. length r.ledger.streams ≡ length l.streams) (step accurate l e)
unfolding step
step-length accurate l (carry i n) f = carried_length (get_elem? l.streams i)
  where
    carried_length : (o : Option Scb) → length (carry_on l i n o).ledger.streams ≡ length l.streams
    carried_length none = unfold carry_on in refl
    carried_length (some s) = unfold carry_on record_traffic in length-set l.streams i _
step-length accurate l (close i now later t) f =
    close_on-length accurate l i now later t (get_elem? l.streams i) f
step-length accurate l (answer now) f = refl

abbrev pub behind : List Report → Option Entry → Option Entry
behind rs none = none
behind rs (some q) = some (record q { reports = rs ++ q.reports })

-- The events of a user, one after the other; `none`: a host is copied over the end of its array.
unfoldable pub run : Bool → Ledger → List Event → Option Entry
run accurate l [] = some (record { ledger = l; reports = [] })
run accurate l (e ∷ es) = elim (step accurate l e) [
  | none ↦ none
  | some r ↦ behind r.reports (run accurate r.ledger es)
]

-- The bytes that the streams carry.
abbrev pub bytes : List Event → ℕ
bytes [] = 0
bytes (carry i n ∷ es) = n + bytes es
bytes (close _ _ _ _ ∷ es) = bytes es
bytes (answer _ ∷ es) = bytes es

abbrev pub Names : ℕ → Event → Type 0
Names k (carry i n) = i < k
Names k (close i _ _ t) = length t.curr_host ≤ host_size
Names k (answer _) = Unit

abbrev pub Balances : Ledger → List Event → Entry → Type 0
Balances l es r = reported r.reports + owed r.ledger ≡ owed l + bytes es

reported-append : (rs qs : List Report) → reported (rs ++ qs) ≡ reported rs + reported qs
reported-append [] qs = omega arith
reported-append (r ∷ rs) qs = omega (arith, reported-append rs qs)

cost-bytes :
    (l : Ledger) (e : Event) (es : List Event)
    → Names (length l.streams) e
    → cost false l e + bytes es ≡ bytes (e ∷ es)
unfolding traffic_tcp_hss
cost-bytes l (carry i n) es h = let (s, e) = get_elem?_below l.streams i h in rw e
cost-bytes l (close i now later t) es h = free (get_elem? l.streams i)
  where
    free : (o : Option Scb) → stream_cost 0 o + bytes es ≡ bytes es
    free none = omega arith
    free (some s) = ground arith
cost-bytes l (answer now) es h = omega arith

Names-HostFits : (k : ℕ) (e : Event) → Names k e → HostFits e
Names-HostFits k (carry i n) h = tt
Names-HostFits k (close i now later t) h = h
Names-HostFits k (answer now) h = tt

behind-Balances :
    (l : Ledger) (e : Event) (es : List Event) (r : Entry) (q : Option Entry)
    → Names (length l.streams) e
    → Keeps false l e r
    → Returns (Balances r.ledger es) q
    → Returns (Balances l (e ∷ es)) (behind r.reports q)
behind-Balances l e es r none n k b = b
behind-Balances l e es r (some q) n k b =
    omega (arith, reported-append r.reports q.reports, cost-bytes l e es n, k.0)

run-after :
    (l : Ledger) (e : Event) (es : List Event) (o : Option Entry)
    → Names (length l.streams) e
    → Returns (Keeps false l e) o
    → Returns (λ r. length r.ledger.streams ≡ length l.streams) o
    → ((r : Entry)
        → Keeps false l e r
        → length r.ledger.streams ≡ length l.streams
        → Returns (Balances r.ledger es) (run false r.ledger es))
    → Returns
        (Balances l (e ∷ es))
        (elim o [ none ↦ none | some r ↦ behind r.reports (run false r.ledger es) ])
run-after l e es none n k len rest = absurd k
run-after l e es (some r) n k len rest =
    behind-Balances l e es r (run false r.ledger es) n k (rest r k len)

-- In the build without ACCURATE_TRAFFIC, for any sequence of data, stream ends and answers of the
-- recorder: no array is overrun, and the bytes reported to the recorder, those put aside and those
-- still on streams are together the bytes that there were and the bytes carried, if that sum fits 64
-- bits, the streams exist and the hosts fit their array.
pub run-Balances :
    (l : Ledger) (es : List Event)
    → IsSettled l.user
    → All (Names (length l.streams)) es
    → owed l + bytes es < 2 ^ 64
    → Returns (Balances l es) (run false l es)
unfolding run
run-Balances l [] w n h = omega arith
run-Balances l (e ∷ es) w n h =
    run-after l e es (step false l e) n.0
      (step-Keeps false l e w (Names-HostFits _ e n.0) (omega (arith, cost-bytes l e es n.0)))
      (step-length false l e (Names-HostFits _ e n.0))
      λ r k len.
        run-Balances r.ledger es k.1 (rw len n.1) (omega (arith, cost-bytes l e es n.0, k.0))
