-- ===== src/Tms/Download/Delivery.antt =====
-- The events of a download and the bytes that they move: tms/tms/ConnectMgr.cpp.
use https_tunnel_proxy.Base.{
  ℕ, zero, suc, ◌+◌, ◌-◌, ◌≤◌, ◌<◌, ◌≡◌, refl, sym, ap, subst, ◌∙◌, Bool, true, false, List, [],
  ◌∷◌, ◌++◌, Option, none, some, arith, length, take, drop, ltb, ◌==◌, if◌then◌else◌, append_assoc,
  append-nil, length-append, length-drop, take-append, drop-drop, inl, inr, Bool-cases,
}
use https_tunnel_proxy.Tms.Types.{User, Scb}
use https_tunnel_proxy.Tms.Download.{
  Download, buff_size, charge, paid, hang_up, forward, advance, writable,
}

-- Bytes read from the web server, with the result of `send`; and the tunnel's socket taking bytes.
pub data Event : Type 0 where
  read : List ℕ → Option ℕ → Event
  write : Option ℕ → Event

unfoldable pub step : Bool → Download → Event → Option Download
step accurate d (read got w) = forward accurate d got w
step accurate d (write w) = writable accurate d w

abbrev pub input : Event → List ℕ
input (read got _) = got
input (write _) = []

-- `send` takes at most what it is given.
abbrev pub TakesUpTo : Option ℕ → ℕ → Type 0
TakesUpTo none n = Unit
TakesUpTo (some w) n = w ≤ n

-- The web server's socket is read only while nothing waits to be sent on, a buffer at most; and the
-- tunnel's socket is written only while something does.
abbrev pub IsDue : Download → Event → Type 0
IsDue d (read got w) =
    (d.hangup ≡ false) × (0 < length got) × (length got ≤ buff_size) × TakesUpTo w (length got)
IsDue d (write w) = (d.hangup ≡ true) × TakesUpTo w d.datalen

-- The bytes that were read and wait.
abbrev pub waiting : Download → List ℕ
waiting d = if d.hangup then take d.datalen (drop d.offset d.buff) else []

pub record IsValid (d : Download) : Type 0 where
  pub buff : length d.buff ≡ buff_size
  pub idle : d.hangup ≡ false → d.offset ≡ 0
  pub busy : d.hangup ≡ true → (0 < d.datalen) × (d.offset + d.datalen ≤ buff_size)

take-nil : (n : ℕ) → take {A = ℕ} n [] ≡ []
take-nil zero = refl
take-nil (suc n) = refl

take-sum : (m n : ℕ) (xs : List ℕ) → take m xs ++ take n (drop m xs) ≡ take (m + n) xs
take-sum zero n xs = let e : 0 + n ≡ n = omega arith in rw e
take-sum (suc m) n [] = take-nil n ∙ sym (take-nil (suc m + n))
take-sum (suc m) n (x ∷ xs) =
    let e : suc m + n ≡ suc (m + n) = omega arith in rw (e, take-sum m n xs)

-- The bytes that were read are sent or wait, in order.
abbrev pub Keeps : Download → List ℕ → Download → Type 0
Keeps d got t = IsValid t × (t.sent ++ waiting t ≡ (d.sent ++ waiting d) ++ got)

abbrev pub or_else : Download → Option Download → Download
or_else d none = d
or_else d (some e) = e

paid-Keeps :
    (d e t : Download) (got : List ℕ) (o : Option (User × Scb))
    → paid e o ≡ some t
    → Keeps d got e
    → Keeps d got t
paid-Keeps d e t got none h k = ground (arith, h)
paid-Keeps d e t got (some (u, s)) h k =
    subst (λ x. Keeps d got x) (ap (or_else e) h)
      (record { buff = k.0.buff; idle = k.0.idle; busy = k.0.busy }, k.1)

if_paid-Keeps :
    (b : Bool) (d e t : Download) (got : List ℕ) (o : Option (User × Scb))
    → (if b then paid e o else some e) ≡ some t
    → Keeps d got e
    → Keeps d got t
if_paid-Keeps true d e t got o h k = paid-Keeps d e t got o h k
if_paid-Keeps false d e t got o h k = subst (λ x. Keeps d got x) (ap (or_else e) h) k

-- The buffer once `got` is read to its start, and `w` of it is sent.
sent_of :
    (w : ℕ) (got buf : List ℕ)
    → w ≤ length got
    → take w (got ++ buf) ++ take (length got - w) (drop w (got ++ buf)) ≡ got
sent_of w got buf h =
    let e : w + (length got - w) ≡ length got = omega arith in
    take-sum w (length got - w) (got ++ buf) ∙ rw (e, take-append got buf)

read-Keeps :
    (d : Download) (got : List ℕ) (w : ℕ) (sent : List ℕ)
    → IsValid d
    → d.hangup ≡ false
    → 0 < length got
    → length got ≤ buff_size
    → w ≤ length got
    → sent ≡ d.sent ++ take w (got ++ drop (length got) d.buff)
    → Keeps d got
        (hang_up (length got) w (record d { buff = got ++ drop (length got) d.buff; sent = sent }))
unfolding hang_up
read-Keeps d got w sent v h p q r e = elim (Bool-cases (w == length got)) [
  | inl t ↦ rw t (
    record { buff = full; idle = v.idle; busy = v.busy },
    rw (h, e, append-nil) (rw append-nil (ap (λ bs. d.sent ++ bs) (all_of (ground arith)))),
  )
  | inr f ↦ rw f (
    record { buff = full; idle = λ x. cc; busy = λ x. (ground arith, omega arith) },
    rw (h, e)
        (rw (append_assoc d.sent, append-nil)
          (ap (λ bs. d.sent ++ bs) (sent_of w got (drop (length got) d.buff) r))),
  )
]
  where
    full : length (got ++ drop (length got) d.buff) ≡ buff_size
    full = omega (
      arith,
      length-append got (drop (length got) d.buff),
      length-drop (length got) d.buff,
      v.buff,
    )

    all_of : w ≡ length got → take w (got ++ drop (length got) d.buff) ≡ got
    all_of x = rw x (take-append got (drop (length got) d.buff))

sent_more :
    (s b : List ℕ) (w n off : ℕ)
    → w ≤ n
    → (s ++ take w (drop off b)) ++ take (n - w) (drop (off + w) b)
      ≡ (s ++ take n (drop off b)) ++ []
sent_more s b w n off h =
    let e : w + (n - w) ≡ n = omega arith in
    append_assoc s (take w (drop off b)) (take (n - w) (drop (off + w) b))
    ∙ ap (λ bs. s ++ bs) (rw (← drop-drop off w b) (take-sum w (n - w) (drop off b) ∙ rw e refl))
    ∙ sym (append-nil (s ++ take n (drop off b)))

nothing_sent : (s x : List ℕ) → (s ++ []) ++ x ≡ (s ++ x) ++ []
nothing_sent s x = append_assoc s [] x ∙ sym (append-nil (s ++ x))

write-Keeps :
    (d : Download) (w : ℕ)
    → IsValid d
    → d.hangup ≡ true
    → w ≤ d.datalen
    → Keeps d [] (advance w (record d { sent = d.sent ++ take w (drop d.offset d.buff) }))
unfolding advance
write-Keeps d w v h r = elim (Bool-cases (w == d.datalen)) [
  | inl t ↦ rw t (
    record { buff = v.buff; idle = λ x. refl; busy = λ x. cc },
    let e : w ≡ d.datalen = ground arith in rw (h, e) refl,
  )
  | inr f ↦ elim (Bool-cases (ltb 0 w)) [
    | inl t ↦
        rw (f, t)
          (
            record {
              buff = v.buff;
              idle = λ x. absurd (ground (arith, x, h));
              busy = λ x. (ground arith, omega (arith, (v.busy h).1));
            },
            rw h (sent_more d.sent d.buff w d.datalen d.offset r),
          )
    | inr g ↦
        rw (f, g)
          (
            record { buff = v.buff; idle = v.idle; busy = v.busy },
            let e : w ≡ 0 = ground arith in rw (h, e) (nothing_sent d.sent _),
          )
  ]
]

read_at_start :
    (d : Download) (got : List ℕ)
    → IsValid d
    → d.hangup ≡ false
    → take d.offset d.buff ++ (got ++ drop (d.offset + length got) d.buff)
      ≡ got ++ drop (length got) d.buff
read_at_start d got v h = let z : 0 + length got ≡ length got = omega arith in rw (v.idle h, z) refl

-- One event at its time keeps the bytes.
due-Keeps :
    (accurate : Bool) (d t : Download) (e : Event)
    → IsValid d
    → IsDue d e
    → step accurate d e ≡ some t
    → Keeps d (input e) t
unfolding step forward writable
due-Keeps accurate d t (read got none) v (h, p, q, r) e =
    let z = read_at_start d got v h in
    subst (λ x. Keeps d got x) (ap (or_else d) (rw z at e))
      (read-Keeps d got 0 d.sent v h p q (omega arith) (sym (append-nil d.sent)))
due-Keeps accurate d t (read got (some w)) v (h, p, q, r) e =
    let z = read_at_start d got v h in
    paid-Keeps d _ t got (charge accurate d.user d.scb w) (rw z at e)
      (read-Keeps d got w _ v h p q r refl)
due-Keeps accurate d t (write none) v (h, r) e =
    subst (λ x. Keeps d [] x) (ap (or_else d) e) (v, sym (append-nil (d.sent ++ waiting d)))
due-Keeps accurate d t (write (some w)) v (h, r) e =
    let z : (d.datalen == 0) ≡ false = ground (arith, v.busy h) in
    if_paid-Keeps (ltb 0 w) d _ t [] (charge accurate d.user d.scb w) (rw z at e)
      (write-Keeps d w v h r)

-- A download, by the events at their times and the bytes that they read.
pub data Reach (accurate : Bool) (d : Download) : List ℕ → Download → Type 0 where
  here : Reach accurate d [] d
  next :
      {got : List ℕ} {t u : Download} (e : Event)
      → Reach accurate d got t
      → IsDue t e
      → step accurate t e ≡ some u
      → Reach accurate d (got ++ input e) u

-- However often the tunnel's socket is full, the bytes that it has taken and those that wait are the
-- bytes that the web server sent, once each and in order; the tunnel is written only while bytes wait,
-- and the connection lasts while no charge fails.
pub Reach-Keeps :
    {accurate : Bool} {d t : Download} {got : List ℕ}
    → IsValid d
    → Reach accurate d got t
    → Keeps d got t
Reach-Keeps {d = d} v here = (v, sym (append-nil (d.sent ++ waiting d)))
Reach-Keeps {accurate} {d} v (next {got} {t} {u} e r due s) =
    let k = Reach-Keeps v r in
    let k' = due-Keeps accurate t u e k.0 due s in
    (k'.0, k'.1 ∙ rw k.1 (append_assoc (d.sent ++ waiting d) got (input e)))
