-- ===== src/Tms/NetworkTests.antt =====
-- Runs of name resolution and of downloads, tms/tms/DnsCache.cpp and tms/tms/ConnectMgr.cpp, on
-- concrete input.
use https_tunnel_proxy.Base.{
  ℕ, ◌≡◌, refl, true, false, not, List, [], ◌∷◌, ◌++◌, some, arith, take, drop, replicate,
  length-replicate, map, flatten, keep_if, All,
}
use https_tunnel_proxy.Base.Int.{add64, sub64}
use https_tunnel_proxy.Tms.Types.{User, make_scb, u_validated, no_time}
use https_tunnel_proxy.Tms.Accounting.{record_traffic, traffic_est}
use https_tunnel_proxy.Tms.Dns.{req_fill, res_parse}
use https_tunnel_proxy.Tms.Dns.Names.{join, IsLabel}
use https_tunnel_proxy.Tms.Dns.Answers.{
  Resource, bytes_of, answer_to, address, res_parse-answer_to, res_parse-req_fill,
}
use https_tunnel_proxy.Tms.WaitLists.{
  Waiting, is_expired, expire_wait_lists, added, expire_wait_lists-added,
}
use https_tunnel_proxy.Tms.Download.{Download, writable, charge, advance}
use https_tunnel_proxy.Tms.Download.Delivery.{write, step, IsValid, here, next, Keeps, Reach-Keeps}
use https_tunnel_proxy.Tms.Download.Repeat.{writable-again}

-- "ab.c"
abbrev label : List ℕ
label = b'a' ∷ b'b' ∷ []

abbrev labels : List (List ℕ)
labels = (b'c' ∷ []) ∷ []

labels_are : All IsLabel (label ∷ labels)
labels_are = (
  record { filled = omega arith; short = omega arith; plain = (omega arith, (omega arith, tt)) },
  (record { filled = omega arith; short = omega arith; plain = (omega arith, tt) }, tt),
)

abbrev alias : Resource
alias = record { name = 49164; kind = 5; cls = 1; ttl = 60; body = 1 ∷ b'x' ∷ 0 ∷ [] }

abbrev resource : Resource
resource = record { name = 49164; kind = 1; cls = 1; ttl = 60; body = 10 ∷ 0 ∷ 0 ∷ 1 ∷ [] }

res_parse-answer_to_example :
    res_parse (
      answer_to 7 384 2
        (join (label ∷ labels))
        (flatten (map bytes_of (alias ∷ [])) ++ (bytes_of resource ++ [])))
    ≡ some (record { host = join (label ∷ labels); ip = address (10 ∷ 0 ∷ 0 ∷ 1 ∷ []) } ∷ [])
res_parse-answer_to_example =
    res_parse-answer_to 7 384 2 label labels (alias ∷ []) resource 10 0 0 1 [] labels_are
      ((record { kind = omega arith; body = omega arith }, omega arith), tt) (omega arith)
      (omega arith) refl refl

res_parse-req_fill_example :
    res_parse (req_fill 12345 (join (label ∷ labels)))
    ≡ some (record { host = join (label ∷ labels); ip = 0 } ∷ [])
res_parse-req_fill_example = res_parse-req_fill 12345 label labels labels_are

abbrev waiting_at : ℕ → Waiting
waiting_at t = record { time = t; id = record { mobile = 7; app = 1; scbid = 4 } }

abbrev waits : List Waiting
waits = waiting_at 20 ∷ waiting_at 3 ∷ waiting_at 12 ∷ []

expire_wait_lists-added_example :
    expire_wait_lists 18 (added waits) ≡ keep_if (λ w. not (is_expired 18 w)) (added waits)
expire_wait_lists-added_example = expire_wait_lists-added 18 waits

abbrev rich : User
rich = record {
  mobile = 7;
  app = 1;
  forward_id = 3;
  traffic = 0;
  balance = 100000;
  accu_start_time = no_time;
  status = u_validated;
  reporting = 0;
  con_report = 0;
}

-- A download of which 1, 2 and 3 wait.
abbrev stalled : Download
stalled = record {
  buff = 1 ∷ 2 ∷ 3 ∷ replicate 8189 0;
  offset = 0;
  datalen = 3;
  hangup = true;
  user = rich;
  scb = make_scb 4;
  sent = [];
}

stalled-IsValid : IsValid stalled
stalled-IsValid = record {
  buff = omega (arith, length-replicate {A = ℕ} 8189 0);
  idle = λ h. cc;
  busy = λ h. (omega arith, omega arith);
}

abbrev charged : ℕ → Download → Download
charged n d = record d {
  user = record d.user { balance = sub64 d.user.balance n };
  scb = record d.scb { traffic = add64 d.scb.traffic n };
}

-- The socket takes two bytes, and the third.
abbrev nearly : Download
nearly = charged 2 (record stalled { offset = 2; datalen = 1; sent = 1 ∷ 2 ∷ [] })

Reach-Keeps_example : Keeps stalled [] nearly
unfolding step writable charge record_traffic traffic_est advance make_scb
Reach-Keeps_example =
    Reach-Keeps {accurate = false} stalled-IsValid
      (next (write (some 2)) here (refl, omega arith) refl)

-- The third byte is taken, and then the first of the buffer in its place.
abbrev flushed : Download
flushed = charged 1 (record nearly { offset = 0; hangup = false; sent = 1 ∷ 2 ∷ 3 ∷ [] })

abbrev wrong : Download
wrong = charged 1 (record flushed { sent = 1 ∷ 2 ∷ 3 ∷ 1 ∷ [] })

nearly-IsValid : IsValid nearly
nearly-IsValid = record {
  buff = omega (arith, length-replicate {A = ℕ} 8189 0);
  idle = λ h. cc;
  busy = λ h. (omega arith, omega arith);
}

writable-again_example :
    wrong.sent ≡ (nearly.sent ++ take 1 (drop 2 nearly.buff)) ++ take 1 nearly.buff
unfolding writable charge record_traffic traffic_est advance make_scb
writable-again_example = writable-again false nearly flushed wrong nearly-IsValid refl refl refl
