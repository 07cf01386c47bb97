-- ===== src/Tms/Download/Repeat.antt =====
-- The tunnel's socket reported writable once more after a download's rest: `HandleEPOEvent` of
-- tms/tms/ConnectMgr.cpp.
use https_tunnel_proxy.Base.{
  ◌<◌, ◌≡◌, refl, ap, subst, ◌∙◌, Bool, true, false, ◌++◌, Option, none, some, arith, take, drop,
  ltb, ◌==◌, ==_refl,
}
use https_tunnel_proxy.Tms.Types.{User, Scb}
use https_tunnel_proxy.Tms.Download.{Download, charge, paid, advance, writable}
use https_tunnel_proxy.Tms.Download.Delivery.{IsValid, or_else}

-- All that waits has been sent, and the buffer and `datalen` are as before.
abbrev Flushed : Download → Download → Type 0
Flushed d t =
    (t.sent ≡ d.sent ++ take d.datalen (drop d.offset d.buff))
    × (t.offset ≡ 0)
    × (t.datalen ≡ d.datalen)
    × (t.buff ≡ d.buff)

paid-Flushed :
    (d t : Download) (o : Option (User × Scb))
    → paid
        (record d {
          offset = 0;
          hangup = false;
          sent = d.sent ++ take d.datalen (drop d.offset d.buff);
        })
        o
      ≡ some t
    → Flushed d t
paid-Flushed d t none h = ground (arith, h)
paid-Flushed d t (some (u, s)) h =
    subst (λ x. Flushed d x) (ap (or_else d) h) (refl, refl, refl, refl)

writable-Flushed :
    (accurate : Bool) (d t : Download)
    → 0 < d.datalen
    → writable accurate d (some d.datalen) ≡ some t
    → Flushed d t
unfolding writable advance
writable-Flushed accurate d t p e =
    let z : (d.datalen == 0) ≡ false = ground arith in
    let x : ltb 0 d.datalen ≡ true = ground arith in
    paid-Flushed d t (charge accurate d.user d.scb d.datalen) (rw (z, ==_refl d.datalen, x) at e)

-- `datalen` is not cleared when all has been sent, but `offset` is: a writable event sends the rest of
-- a download, which is what waits behind `offset`, and one more writable event sends the first
-- `datalen` bytes of the buffer. This is where the rest stood if the tunnel had taken nothing before,
-- and not if it had taken a part.
-- Conditions: a rest waits, the socket takes all that it is given each time, and neither event ends
-- in a failure.
pub writable-again :
    (accurate : Bool) (d t u : Download)
    → IsValid d
    → d.hangup ≡ true
    → writable accurate d (some d.datalen) ≡ some t
    → writable accurate t (some t.datalen) ≡ some u
    → u.sent ≡ (d.sent ++ take d.datalen (drop d.offset d.buff)) ++ take d.datalen d.buff
writable-again accurate d t u v h e f =
    let (s, z, n, b) = writable-Flushed accurate d t (v.busy h).0 e in
    (writable-Flushed accurate t u (rw n (v.busy h).0) f).0 ∙ rw (s, z, n, b) refl
