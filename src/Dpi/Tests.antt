-- ===== src/Dpi/Tests.antt =====
-- Runs of the traffic meter, ic-dpi/ic-dpi, on concrete input.
use https_tunnel_proxy.Base.{
  ℕ, ◌+◌, ◌≤◌, ◌≡◌, refl, inl, List, [], ◌∷◌, ◌++◌, Option, none, some, arith, length, take, drop,
  replicate, length-replicate, take-append, flatten, map, Returns, ◌==◌, if◌then◌else◌, ==_refl,
}
use https_tunnel_proxy.Wire.Bytes.{frame, header, le}
use https_tunnel_proxy.Wire.Messages.{Timeval, SynUserTuple, encode_syn_user_tuple}
use https_tunnel_proxy.Dpi.Predict.{tcp_ack_len, telecom_traffic_predict}
use https_tunnel_proxy.Dpi.Counter.Update.{
  IpUserTraffic, extend, cleared, on_traffic_report, on_user_login, min_ack_len, minus_min_ack_len,
}
use https_tunnel_proxy.Dpi.Counter.Conserve.{
  Event, packet, login, answer, step, run, IsUsed, Balances, packets, run-conserves, run-charges,
}
use https_tunnel_proxy.Dpi.Counter.Outstanding.{takes, Reach, here, next, opening, Reach-reporting}
use https_tunnel_proxy.Base.Int.{sub32}
use https_tunnel_proxy.Dpi.Table.{LruCache}
use https_tunnel_proxy.Dpi.Packet.{
  Wire, on_wire, fin_of, dpi_packet_process, dpi_packet_process-on_wire,
}
use https_tunnel_proxy.Dpi.Stream.{buff_size}
use https_tunnel_proxy.Dpi.Stream.Chunks.{alive, receive, event, receive-flatten}
use https_tunnel_proxy.Dpi.Stream.Deliver.{idle, Delivers, receive-frames}
use https_tunnel_proxy.Dpi.Handler.{on_user_login as logged_in, handle_recv_msg, receive-logins}

-- A user with 300 bytes counted, whose connection both sides have finished.
abbrev used : IpUserTraffic
used = record { ip_be = 5; reporting = 0; fins = 3; traffic = 300; mobile = 7; app = 1 }

used-IsUsed : IsUsed used
used-IsUsed = record { known = omega arith; flag = omega arith; word = omega arith }

-- A packet, which is reported; one meanwhile, the answer, and one more packet.
abbrev history : List Event
history = packet 100 0 ∷ packet 400 3 ∷ answer ∷ packet 52 1 ∷ []

history_total :
    run used history
    ≡ some (record { final = record used { reporting = 1; fins = 1; traffic = 12 }; total = 840 })
unfolding run step on_traffic_report on_user_login
history_total = refl

run-conserves_example : Returns (Balances used history) (run used history)
run-conserves_example =
    run-conserves used history used-IsUsed (tt, (tt, (tt, (tt, tt)))) (omega arith)

-- Packets before the first login, and then the history.
abbrev early : List Event
early = packet 60 0 ∷ packet 200 1 ∷ login 5 7 1 ∷ history

early_total : Returns (λ s. s.total ≡ 800) (run cleared early)
unfolding run step on_traffic_report on_user_login
early_total = refl

run-charges_example : Returns (λ s. s.total ≤ packets early + min_ack_len) (run cleared early)
run-charges_example = run-charges early (omega arith)

-- No user has logged in here.
abbrev unnamed : IpUserTraffic
unnamed = record { ip_be = 0; reporting = 0; fins = 1; traffic = 300; mobile = 0; app = 0 }

-- A login, and a packet that is reported.
abbrev logged : IpUserTraffic
logged = record cleared { ip_be = 5; mobile = 7; app = 1 }

abbrev after_packet : IpUserTraffic
after_packet = record logged { fins = 3; traffic = 300 }

abbrev after_report : IpUserTraffic
after_report = record logged { reporting = 1; traffic = minus_min_ack_len }

session : Reach opening (record { counter = after_report; unanswered = 1 })
unfolding step on_traffic_report on_user_login
session =
    next {t = record { counter = after_packet; unanswered = 0 }}
      (next {t = record { counter = logged; unanswered = 0 }}
        (next here (
          takes (login 5 7 1) (record { counter = logged; report = none }) (omega arith) refl refl
            refl))
        (takes (packet 300 3) (record { counter = after_packet; report = none }) (omega arith) refl
          refl refl))
      (takes (packet 10 3) (record { counter = after_report; report = some 350 }) (omega arith) refl
        refl refl)

Reach-reporting_example : (1 ≡ after_report.reporting) × (1 ≤ 1)
Reach-reporting_example = Reach-reporting session

-- 3000 bytes take three segments.
abbrev buffer : List ℕ
buffer = replicate buff_size 0

-- A handler that collects the messages.
abbrev collect : List (List ℕ) → List ℕ → ℕ → List (List ℕ)
collect ms buf n = ms ++ take n buf ∷ []

abbrev add : List (List ℕ) → List ℕ → List (List ℕ)
add ms m = ms ++ m ∷ []

collects :
    (ms : List (List ℕ)) (m behind : List ℕ)
    → Unit {0}
    → collect ms (m ++ behind) (length m) ≡ add ms m
collects ms m behind known = rw (take-append m behind)

abbrev first_message : List ℕ
first_message = 1 ∷ 2 ∷ 3 ∷ []

abbrev second_message : List ℕ
second_message = 9 ∷ []

abbrev stream : List ℕ
stream = flatten (map frame (first_message ∷ second_message ∷ []))

buffer-length : length buffer ≡ buff_size
buffer-length = length-replicate {A = ℕ} buff_size 0

receive-frames_example :
    Delivers collect
      (first_message ∷ second_message ∷ [])
      (receive collect (alive (idle 0 buffer) []) (take 5 stream ∷ drop 5 stream ∷ []))
unfolding frame header
receive-frames_example =
    receive-frames collect add (λ m. Unit) collects 0 buffer []
      (first_message ∷ second_message ∷ []) (take 5 stream) (drop 5 stream ∷ []) buffer-length
      (((omega arith, omega arith), tt), (((omega arith, omega arith), tt), tt))
      ((λ e. cc), ((λ e. cc), tt)) refl

receive-flatten_example :
    receive collect (alive (idle 0 buffer) []) (take 5 stream ∷ drop 5 stream ∷ [])
    ≡ event collect (idle 0 buffer) [] (flatten (take 5 stream ∷ drop 5 stream ∷ []))
unfolding frame header
receive-flatten_example =
    receive-flatten collect (idle 0 buffer) [] (take 5 stream) (drop 5 stream ∷ [])
      (record { buff = buffer-length; offset = omega arith; state = inl refl })
      ((λ e. cc), ((λ e. cc), tt))

abbrev user_tuple : SynUserTuple
user_tuple = record { app = 1; mobile = 7; src_ip_be = 5; src_port_be = 80 }

abbrev login_frame : List ℕ
login_frame = frame (encode_syn_user_tuple user_tuple)

receive-logins_example : Delivers handle_recv_msg (logged_in user_tuple ∷ []) (
    receive handle_recv_msg
      (alive (idle 0 buffer) [])
      (take 7 login_frame ∷ drop 7 login_frame ∷ []))
unfolding frame encode_syn_user_tuple le
receive-logins_example =
    receive-logins 0 buffer (user_tuple ∷ []) (take 7 login_frame) (drop 7 login_frame ∷ [])
      buffer-length
      (
        record {
          app = omega arith;
          mobile = omega arith;
          src_ip_be = omega arith;
          src_port_be = omega arith;
        },
        tt,
      )
      ((λ e. cc), ((λ e. cc), tt)) refl

-- A cache that never evicts.
abbrev lru : LruCache
lru = record {
  Cache = ℕ → Option IpUserTraffic;
  lookup = λ c k. c k;
  insert = λ c k v j. if k == j then some v else c j;
  write = λ c k v j. if k == j then some v else c j;
  lookup-insert = λ c k v. rw (==_refl k);
  lookup-write = λ c k v w e. rw (==_refl k);
  lookup-write_ne = λ c k j v n. ground arith;
}

abbrev empty_cache : ℕ → Option IpUserTraffic
empty_cache k = none

abbrev now : Timeval
now = record { tv_sec = 100; tv_usec = 0 }

abbrev two_users : ℕ → Option IpUserTraffic
two_users k = some used

-- A frame with an IP header of 24 bytes, from 10.0.0.1 to 10.0.0.2, whose TCP header has FIN set.
abbrev wire : Wire
wire = record {
  link = replicate 14 0;
  version = 4;
  words = 6;
  fixed = replicate 11 0;
  src = 16777226;
  dst = 33554442;
  options = replicate 4 1;
  tcp_fixed = replicate 13 0;
  flags = 17;
  rest = replicate 10 0;
}

dpi_packet_process-on_wire_example : dpi_packet_process 16777226 100 (on_wire wire) ≡ record {
  client = if 16777226 == 16777226 then 33554442 else 16777226;
  traffic = extend (telecom_traffic_predict (sub32 (sub32 100 14) tcp_ack_len));
  fin_type = fin_of (16777226 == 16777226) 17;
}
dpi_packet_process-on_wire_example = dpi_packet_process-on_wire 16777226 100 wire (record {
  link = refl;
  version = omega arith;
  words = omega arith;
  fixed = refl;
  src = omega arith;
  dst = omega arith;
  options = refl;
  tcp_fixed = refl;
})
