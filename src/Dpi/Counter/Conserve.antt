-- ===== src/Dpi/Counter/Conserve.antt =====
-- Histories of a traffic counter of ic-dpi/ic-dpi/LvldbMgr.cpp: what it reports, and what it has seen.
use Prim.Native.Nat.{bit_or}
use https_tunnel_proxy.Base.{
  ℕ, ◌+◌, ◌%◌, ◌^◌, ◌≤◌, ◌<◌, ◌≡◌, refl, ◌≢◌, List, [], ◌∷◌, Option, none, some, arith, true,
  Returns, Returns-map,
}
use https_tunnel_proxy.Dpi.Counter.Update.{
  IpUserTraffic, cleared, Outcome, on_traffic_report, on_user_login, on_traffic_report_reply,
  min_ack_len, both_fins, over_256,
}

-- What can happen to a counter: a packet with its estimated cost and its FIN flags, a login of a
-- user at the address, an answer of the recorder.
pub data Event : Type 0 where
  packet : ℕ → ℕ → Event
  login : ℕ → ℕ → ℕ → Event
  answer : Event

-- One round of each loop is enough.
abbrev pub loop_fuel : ℕ
loop_fuel = 1

unfoldable pub step : IpUserTraffic → Event → Option Outcome
unfolding on_traffic_report on_user_login on_traffic_report_reply
step d (packet traffic fin_type) = on_traffic_report loop_fuel d traffic fin_type
step d (login ip mobile app) =
    some (record { counter = on_user_login d ip mobile app; report = none })
step d answer = on_traffic_report_reply loop_fuel d

-- The cost of the packets among the events.
abbrev pub packets : List Event → ℕ
packets [] = 0
packets (packet traffic _ ∷ es) = traffic + packets es
packets (login _ _ _ ∷ es) = packets es
packets (answer ∷ es) = packets es

abbrev pub cost : Event → ℕ
cost (packet traffic _) = traffic
cost (login _ _ _) = 0
cost answer = 0

abbrev pub bytes : Option ℕ → ℕ
bytes none = 0
bytes (some n) = n

-- The counter above its lowest value, -MinAckLen.
abbrev pub pending : IpUserTraffic → ℕ
pending d = (d.traffic + min_ack_len) % 2 ^ 32

-- A user is known at the address, and the flag is a flag.
pub record IsUsed (d : IpUserTraffic) : Type 0 where
  pub known : d.mobile ≢ 0
  pub flag : d.reporting ≤ 1
  pub word : d.traffic < 2 ^ 32

abbrev pub Names : Event → Type 0
Names (packet _ _) = Unit
Names (login _ mobile _) = mobile ≢ 0
Names answer = Unit

abbrev pub Conserves : IpUserTraffic → Event → Outcome → Type 0
Conserves d e o = (bytes o.report + pending o.counter ≡ pending d + cost e) × IsUsed o.counter

pub step-Conserves :
    (d : IpUserTraffic) (e : Event)
    → IsUsed d
    → Names e
    → pending d + cost e < 2 ^ 31
    → Returns (Conserves d e) (step d e)
unfolding step
step-Conserves d (packet traffic fin_type) u n h = ground arith
step-Conserves d (login ip mobile app) u n h = ground arith
step-Conserves d answer u n h = ground arith

-- What a history leaves: the counter, and the bytes of all its reports.
pub record Summary : Type 0 where
  pub final : IpUserTraffic
  pub total : ℕ

abbrev pub add_report : Option ℕ → Option Summary → Option Summary
add_report r none = none
add_report r (some s) = some (record s { total = bytes r + s.total })

-- A history of events; `none` if a loop runs out of fuel.
unfoldable pub run : IpUserTraffic → List Event → Option Summary
run d [] = some (record { final = d; total = 0 })
run d (e ∷ es) = elim (step d e) [ none ↦ none | some o ↦ add_report o.report (run o.counter es) ]

add_report-Returns :
    (P Q : Summary → Type 0) (n : Option ℕ) (r : Option Summary)
    → ((s : Summary) → P s → Q (record s { total = bytes n + s.total }))
    → Returns P r
    → Returns Q (add_report n r)
add_report-Returns P Q n none f h = h
add_report-Returns P Q n (some s) f h = f s h

run-after :
    (P : Outcome → Type 0) (Q : Summary → Type 0) (es : List Event) (r : Option Outcome)
    → Returns P r
    → ((o : Outcome) → P o → Returns Q (add_report o.report (run o.counter es)))
    → Returns Q (elim r [ none ↦ none | some o ↦ add_report o.report (run o.counter es) ])
run-after P Q es none h rest = absurd h
run-after P Q es (some o) h rest = rest o h

abbrev pub NamesAll : List Event → Type 0
NamesAll [] = Unit
NamesAll (e ∷ es) = Names e × NamesAll es

abbrev pub Balances : IpUserTraffic → List Event → Summary → Type 0
Balances d es s = s.total + pending s.final ≡ pending d + packets es

packets-cons : (e : Event) (es : List Event) → packets (e ∷ es) ≡ cost e + packets es
packets-cons (packet traffic fin_type) es = refl
packets-cons (login ip mobile app) es = omega arith
packets-cons answer es = omega arith

-- Any history of packets, logins and answers at an address with a known user ends with every loop
-- done, and the bytes reported and those still counted are together the bytes counted before and
-- the cost of the packets, if that sum stays below 2^31: no byte is lost, none is reported twice.
pub run-conserves :
    (d : IpUserTraffic) (es : List Event)
    → IsUsed d
    → NamesAll es
    → pending d + packets es < 2 ^ 31
    → Returns (Balances d es) (run d es)
unfolding run
run-conserves d [] u n h = omega arith
run-conserves d (e ∷ es) u n h =
    run-after (Conserves d e) (Balances d (e ∷ es)) es (step d e)
      (step-Conserves d e u n.0 (omega (arith, packets-cons e es)))
      λ o c.
        add_report-Returns (Balances o.counter es) _ o.report (run o.counter es)
          (λ s b. omega (arith, b, c.0, packets-cons e es))
          (run-conserves o.counter es c.1 n.1 (omega (arith, packets-cons e es, c.0)))

-- The flag is a flag, and the counter an `int`.
pub record IsSound (d : IpUserTraffic) : Type 0 where
  pub flag : d.reporting ≤ 1
  pub word : d.traffic < 2 ^ 32

abbrev pub Charges : IpUserTraffic → Event → Outcome → Type 0
Charges d e o = (bytes o.report + pending o.counter ≤ pending d + cost e) × IsSound o.counter

step-Charges :
    (d : IpUserTraffic) (e : Event)
    → IsSound d
    → pending d + cost e < 2 ^ 31
    → Returns (Charges d e) (step d e)
unfolding step
step-Charges d (packet traffic fin_type) u h = ground arith
step-Charges d (login ip mobile app) u h = ground arith
step-Charges d answer u h = ground arith

run-pending :
    (d : IpUserTraffic) (es : List Event)
    → IsSound d
    → pending d + packets es < 2 ^ 31
    → Returns (λ s. s.total + pending s.final ≤ pending d + packets es) (run d es)
unfolding run
run-pending d [] u h = omega arith
run-pending d (e ∷ es) u h =
    run-after (Charges d e) (λ s. s.total + pending s.final ≤ pending d + packets (e ∷ es)) es
      (step d e) (step-Charges d e u (omega (arith, packets-cons e es)))
      λ o c.
        add_report-Returns (λ s. s.total + pending s.final ≤ pending o.counter + packets es) _
          o.report (run o.counter es) (λ s b. omega (arith, b, c.0, packets-cons e es))
          (run-pending o.counter es c.1 (omega (arith, packets-cons e es, c.0)))

-- From a counter as it is allocated, the bytes of all reports are at most MinAckLen above the cost of
-- all packets, those before the first login included, in any order of packets, logins and answers,
-- also where no login has a mobile number, if that cost stays below 2^31 - 40.
pub run-charges :
    (es : List Event)
    → min_ack_len + packets es < 2 ^ 31
    → Returns (λ s. s.total ≤ packets es + min_ack_len) (run cleared es)
run-charges es h =
    Returns-map (λ s. s.total + pending s.final ≤ min_ack_len + packets es) _ (run cleared es)
      (λ s b. omega (arith, b))
      (run-pending cleared es (record { flag = omega arith; word = omega arith }) h)

-- Where no user has logged in at an address, a packet after both sides have finished and with more
-- than 256 bytes counted is lost: nothing is reported, and the counter does not grow.
pub on_traffic_report_unknown :
    (d : IpUserTraffic) (traffic fin_type : ℕ)
    → d.mobile ≡ 0
    → d.reporting ≡ 0
    → both_fins (bit_or d.fins fin_type) ≡ true
    → over_256 d.traffic ≡ true
    → Returns
        (λ o. (o.report ≡ none) × (o.counter.traffic ≡ d.traffic))
        (on_traffic_report loop_fuel d traffic fin_type)
unfolding on_traffic_report
on_traffic_report_unknown d traffic fin_type m r b o = ground arith
