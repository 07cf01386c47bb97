-- ===== src/Dpi/Counter/Update.antt =====
-- One packet, one login and one answer of the recorder, applied to a counter: the bodies of
-- `OnTrafficReport`, `OnUserLogin` and `OnTrafficReportReply` in ic-dpi/ic-dpi/LvldbMgr.cpp.
use Prim.Native.Nat.{bit_or, bit_and}
use https_tunnel_proxy.Base.{
  ℕ, zero, suc, ◌+◌, ◌-◌, ◌%◌, ◌^◌, Bool, true, false, not, ◌&&◌, Option, none, some, ltb, leb,
  ◌==◌, if◌then◌else◌,
}
use https_tunnel_proxy.Base.Int.{pos, signed32, ltb_ℤ, add32, add64}

pub record IpUserTraffic : Type 0 where
  pub ip_be : ℕ
  pub reporting : ℕ
  pub fins : ℕ
  pub traffic : ℕ
  pub mobile : ℕ
  pub app : ℕ

-- What calloc gives.
abbrev pub cleared : IpUserTraffic
cleared = record { ip_be = 0; reporting = 0; fins = 0; traffic = 0; mobile = 0; app = 0 }

-- enum FinType
abbrev pub fin_type_n : ℕ
fin_type_n = 0

abbrev pub fin_type_c : ℕ
fin_type_c = 1

abbrev pub fin_type_s : ℕ
fin_type_s = 2

abbrev pub fin_type_r : ℕ
fin_type_r = 4

abbrev pub min_ack_len : ℕ
min_ack_len = 40

-- -MinAckLen as an `int`.
abbrev pub minus_min_ack_len : ℕ
minus_min_ack_len = 2 ^ 32 - min_ack_len

-- An `int` taken as a U64.
abbrev pub extend : ℕ → ℕ
extend w = if ltb w (2 ^ 31) then w else w + (2 ^ 64 - 2 ^ 32)

-- __sync_bool_compare_and_swap: the new content of the cell, and whether it was swapped.
abbrev pub cas : ℕ → ℕ → ℕ → ℕ × Bool
cas cell old new = if cell == old then (new, true) else (cell, false)

-- What a call leaves: the counter, and the bytes that it reports to the recorder, if it does.
pub record Outcome : Type 0 where
  pub counter : IpUserTraffic
  pub report : Option ℕ

-- `dbu->traffic + traffic`, stored into an `int`.
abbrev pub plus_traffic : ℕ → ℕ → ℕ
plus_traffic t traffic = add64 (extend t) traffic % 2 ^ 32

-- `dbu->traffic > 256`.
abbrev pub over_256 : ℕ → Bool
over_256 t = ltb_ℤ (pos 256) (signed32 t)

-- A swap that fails is tried again.
abbrev pub retry {ℓ} : {A : Type ℓ} → ℕ × Bool → (ℕ → A) → A → A
retry (v, swapped) done again = if swapped then done v else again

-- `while(!atomic_cas(&dbu->fins, dbu->fins, 0)) ;`
unfoldable pub clear_fins : ℕ → IpUserTraffic → Option IpUserTraffic
clear_fins zero d = none
clear_fins (suc fuel) d =
    let again = clear_fins fuel d in
    retry (cas d.fins d.fins 0) (λ f. some (record d { fins = f })) again

abbrev pub reported : ℕ → Option IpUserTraffic → Option Outcome
reported n none = none
reported n (some d) = some (record { counter = d; report = some n })

-- The `while (true)` of `OnTrafficReport`; `fin` was computed before it. `none`: out of fuel.
unfoldable pub report_loop : ℕ → Bool → IpUserTraffic → ℕ → Option Outcome
unfolding clear_fins
report_loop zero fin d traffic = none
report_loop (suc fuel) fin d traffic =
    let again = report_loop fuel fin d traffic in
    let add =
      retry (cas d.traffic d.traffic (plus_traffic d.traffic traffic))
        (λ t. some (record { counter = record d { traffic = t }; report = none })) again in
    if not fin
    then add
    else if (d.reporting == 0) && over_256 d.traffic
    then (if d.mobile == 0
        then some (record { counter = d; report = none })
        else retry (cas d.reporting 0 1)
            (λ r.
              reported (add64 (add64 (extend d.traffic) traffic) min_ack_len)
                (clear_fins (suc fuel) (record d { reporting = r; traffic = minus_min_ack_len })))
            again)
    else add

-- `dbu->fins >= (fin_type_c | fin_type_s)`; the flags are small, so the sign does not matter.
abbrev pub both_fins : ℕ → Bool
both_fins fins = leb (bit_or fin_type_c fin_type_s) fins

-- `OnTrafficReport`, once the counter is found.
unfoldable pub on_traffic_report : ℕ → IpUserTraffic → ℕ → ℕ → Option Outcome
unfolding report_loop
on_traffic_report fuel d traffic fin_type =
    let d' = record d { fins = bit_or d.fins fin_type } in
    report_loop fuel (both_fins d'.fins) d' traffic

-- `OnUserLogin`, once the counter is found.
unfoldable pub on_user_login : IpUserTraffic → ℕ → ℕ → ℕ → IpUserTraffic
on_user_login d ip mobile app = record d { ip_be = ip; mobile = mobile; app = app }

-- `while(!atomic_cas(&dbu->reporting, 1, 0)) ;`
unfoldable pub clear_reporting : ℕ → IpUserTraffic → Option IpUserTraffic
clear_reporting zero d = none
clear_reporting (suc fuel) d =
    let again = clear_reporting fuel d in
    retry (cas d.reporting 1 0) (λ r. some (record d { reporting = r })) again

abbrev pub silent : Option IpUserTraffic → Option Outcome
silent none = none
silent (some d) = some (record { counter = d; report = none })

-- The `for (; dbu->reporting; )` of `OnTrafficReportReply`. `to_report + MinAckLen` is an `int` that
-- is stored into a U64.
unfoldable pub reply_loop : ℕ → IpUserTraffic → Option Outcome
unfolding clear_fins clear_reporting
reply_loop zero d = none
reply_loop (suc fuel) d =
    let again = reply_loop fuel d in
    if d.reporting == 0
    then some (record { counter = d; report = none })
    else if over_256 d.traffic && not (bit_and d.fins (bit_or fin_type_c fin_type_s) == 0)
    then retry (cas d.traffic d.traffic minus_min_ack_len)
        (λ t.
          reported (extend (add32 d.traffic min_ack_len))
            (clear_fins (suc fuel) (record d { traffic = t })))
        again
    else silent (clear_reporting (suc fuel) d)

unfoldable pub on_traffic_report_reply : ℕ → IpUserTraffic → Option Outcome
unfolding reply_loop
on_traffic_report_reply fuel d = reply_loop fuel d
