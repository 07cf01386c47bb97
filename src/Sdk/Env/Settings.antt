-- ===== src/Sdk/Env/Settings.antt =====
-- What `YMEGet` answers after `YMESet`, sdk/sdk/SdkEnv.cpp.
use https_tunnel_proxy.Base.{
  ℕ, ◌^◌, ◌<◌, ◌≡◌, ◌≢◌, refl, ap, sym, subst, ◌∙◌, List, ◌∷◌, arith, Returns, leb, if◌then◌else◌,
}
use https_tunnel_proxy.Base.Decimal.{
  atoi_from, decimal, IsDigits, atoi_from-decimal, decimal_cons, decimal-IsDigits,
}
use https_tunnel_proxy.Sdk.World.{Env}
use https_tunnel_proxy.Sdk.Request.{starts_with}
use https_tunnel_proxy.Sdk.Env.{
  begins_with, atoll, word_hone, word_ppid, word_uth, word_rror, word_msip, word_msport, yme_set,
  yme_get, text, overflow,
}

-- The settings that can be written.
pub data Key : Type 0 where
  phone appid auth error tmsip tmsport : Key

abbrev pub name : Key → List ℕ
name phone = b'P' ∷ word_hone
name appid = b'A' ∷ word_ppid
name auth = b'A' ∷ word_uth
name error = b'E' ∷ word_rror
name tmsip = b'T' ∷ word_msip
name tmsport = b'T' ∷ word_msport

-- A number as it is printed: below 2 ^ 63, and below 10 ^ 7 for the port.
abbrev pub IsNumber : ℕ → List ℕ → Type 0
IsNumber bound v = (n : ℕ) × (n < bound) × (v ≡ decimal n)

abbrev pub IsValue : Key → List ℕ → Type 0
IsValue phone v = IsNumber (2 ^ 63) v
IsValue appid v = IsNumber (2 ^ 63) v
IsValue auth v = Unit
IsValue error v = Unit
IsValue tmsip v = Unit
IsValue tmsport v = IsNumber (10 ^ 7) v

atoll-decimal : (n : ℕ) → n < 2 ^ 63 → atoll (decimal n) ≡ n
unfolding atoll
atoll-decimal n h =
    let (d, ds, e) = decimal_cons n in
    let p : IsDigits (d ∷ ds) = subst IsDigits e (decimal-IsDigits n) in
    let r : atoi_from 0 (d ∷ ds) ≡ n =
      ap (atoi_from 0) (sym e) ∙ atoi_from-decimal n (omega arith) in
    subst (λ x. atoll x ≡ n) (sym e) (ground (arith, p.0, r))

-- The room of `sz_tmsport` is enough.
port_text :
    (n : ℕ)
    → n < 10 ^ 7
    → (if leb (10 ^ 7) n then overflow else text (decimal n)) ≡ text (decimal n)
port_text n h = ground arith

-- A setting that has been written is read back as it was written. Condition: a phone, an application
-- or a port is written as a number is printed, below 2 ^ 63, and a port below 10 ^ 7.
pub yme_get-yme_set :
    (k : Key) (v : List ℕ) (e : Env)
    → IsValue k v
    → Returns (λ e'. yme_get (name k) e' ≡ text v) (yme_set (name k) v e)
unfolding yme_get yme_set begins_with starts_with
yme_get-yme_set phone v e (n, h, q) = rw q (ap (λ x. text (decimal x)) (atoll-decimal n h))
yme_get-yme_set appid v e (n, h, q) = rw q (ap (λ x. text (decimal x)) (atoll-decimal n h))
yme_get-yme_set auth v e h = refl
yme_get-yme_set error v e h = refl
yme_get-yme_set tmsip v e h = refl
yme_get-yme_set tmsport v e (n, h, q) = rw (q, atoll-decimal n (omega arith)) (port_text n h)

-- And no other setting changes.
pub yme_get-yme_set_ne :
    (k j : Key) (v : List ℕ) (e : Env)
    → k ≢ j
    → Returns (λ e'. yme_get (name j) e' ≡ yme_get (name j) e) (yme_set (name k) v e)
unfolding yme_get yme_set begins_with starts_with
yme_get-yme_set_ne phone j v e h = ground arith
yme_get-yme_set_ne appid j v e h = ground arith
yme_get-yme_set_ne auth j v e h = ground arith
yme_get-yme_set_ne error j v e h = ground arith
yme_get-yme_set_ne tmsip j v e h = ground arith
yme_get-yme_set_ne tmsport j v e h = ground arith
