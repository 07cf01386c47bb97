-- ===== src/Sdk/Request/Connect.antt =====
-- Requests that begin with CONNECT, as `HandleProxyProtocol` of sdk/sdk/ConnectMgr.cpp reads them.
use https_tunnel_proxy.Base.{
  ℕ, ◌%◌, ◌^◌, ◌<◌, ◌≡◌, ◌≢◌, refl, ap, sym, subst, ◌∙◌, true, false, List, [], ◌∷◌, ◌++◌, some,
  arith, length, All,
}
use https_tunnel_proxy.Base.Decimal.{
  is_digit, atoi_from, decimal, IsDigits, atoi_from-decimal, decimal_cons, decimal-IsDigits,
}
use https_tunnel_proxy.Sdk.Request.{
  cr, lf, space, strchr, is_one_of, token_of, strtok, asks, parse_connect,
}

-- Bytes of a line, and those of a host.
abbrev pub IsLineByte : ℕ → Type 0
IsLineByte b = (b ≢ 0) × (b ≢ cr)

abbrev pub IsHostByte : ℕ → Type 0
IsHostByte b = IsLineByte b × (b ≢ b':')

strchr-append : (l rest : List ℕ) → All IsLineByte l → strchr (l ++ cr ∷ rest) cr ≡ some l
unfolding strchr
strchr-append [] rest a = refl
strchr-append (b ∷ l) rest a = ground (arith, strchr-append l rest a.1, a.0)

token_of-append :
    (ds t rest : List ℕ) (d : ℕ)
    → is_one_of ds d ≡ true
    → All (λ b. is_one_of ds b ≡ false) t
    → token_of ds (t ++ d ∷ rest) ≡ (t, rest)
unfolding token_of
token_of-append ds [] rest d h a = ground arith
token_of-append ds (b ∷ t) rest d h a = ground (arith, token_of-append ds t rest d h a.1, a.0)

-- A token at the front of a text that has at least one byte.
strtok-append :
    (ds t rest : List ℕ) (b d : ℕ)
    → is_one_of ds d ≡ true
    → All (λ b. is_one_of ds b ≡ false) (b ∷ t)
    → strtok ds ((b ∷ t) ++ d ∷ rest) ≡ some (b ∷ t, rest)
unfolding strtok
strtok-append ds t rest b d h a = ground (arith, token_of-append ds (b ∷ t) rest d h a, a.0)

All-map : (P Q : ℕ → Type 0) (xs : List ℕ) → ((x : ℕ) → P x → Q x) → All P xs → All Q xs
All-map P Q [] f a = tt
All-map P Q (x ∷ xs) f a = (f x a.0, All-map P Q xs f a.1)

All-append : (P : ℕ → Type 0) (xs ys : List ℕ) → All P xs → All P ys → All P (xs ++ ys)
All-append P [] ys a b = b
All-append P (x ∷ xs) ys a b = (a.0, All-append P xs ys a.1 b)

-- The line behind the word CONNECT and a space, for a host, a port and what follows.
abbrev pub connect_line : List ℕ → List ℕ → List ℕ → List ℕ
connect_line h ds v = h ++ b':' ∷ (ds ++ space ∷ v)

connect_line-IsLine :
    (h ds v : List ℕ)
    → All IsHostByte h
    → IsDigits ds
    → All IsLineByte v
    → All IsLineByte (connect_line h ds v)
connect_line-IsLine h ds v a b c =
    All-append IsLineByte h (b':' ∷ (ds ++ space ∷ v))
      (All-map IsHostByte IsLineByte h (λ x p. p.0) a)
      (
        (ground arith, ground arith),
        All-append IsLineByte ds (space ∷ v)
            (All-map (λ b. is_digit b ≡ true) IsLineByte ds (λ x p. (ground arith, ground arith)) b)
            ((ground arith, ground arith), c),
      )

parse_connect-digits :
    (b d : ℕ) (h ds v rest : List ℕ)
    → All IsHostByte (b ∷ h)
    → IsDigits (d ∷ ds)
    → All IsLineByte v
    → length (connect_line (b ∷ h) (d ∷ ds) v) < 256
    → parse_connect (connect_line (b ∷ h) (d ∷ ds) v ++ cr ∷ rest)
      ≡ some (asks (record { host = b ∷ h; port = some (atoi_from 0 (d ∷ ds) % 2 ^ 16) }))
unfolding parse_connect
parse_connect-digits b d h ds v rest a p c l =
    let line =
      strchr-append (connect_line (b ∷ h) (d ∷ ds) v) rest
        (connect_line-IsLine (b ∷ h) (d ∷ ds) v a p c) in
    let host =
      strtok-append (b':' ∷ []) h ((d ∷ ds) ++ space ∷ v) b b':' refl
        (All-map IsHostByte _ (b ∷ h) (λ x p. ground arith) a) in
    let port =
      strtok-append (cr ∷ lf ∷ space ∷ []) ds v d space refl
        (All-map (λ b. is_digit b ≡ true) _ (d ∷ ds) (λ x p. ground arith) p) in
    ground (arith, line, host, port, p.0, l)

-- A request "CONNECT host:port ..." is understood: the host and the number of its port are what the
-- line says. Conditions: the host is not empty and has no zero, colon or carriage return, nothing in
-- the rest of the line is a zero or a carriage return, the port is below 2 ^ 16, and the line behind
-- the word is shorter than 256 bytes.
pub parse_connect-connect_line :
    (b n : ℕ) (h v rest : List ℕ)
    → All IsHostByte (b ∷ h)
    → n < 2 ^ 16
    → All IsLineByte v
    → length (connect_line (b ∷ h) (decimal n) v) < 256
    → parse_connect (connect_line (b ∷ h) (decimal n) v ++ cr ∷ rest)
      ≡ some (asks (record { host = b ∷ h; port = some n }))
parse_connect-connect_line b n h v rest a m c l =
    let (d, ds, e) = decimal_cons n in
    let p : IsDigits (d ∷ ds) = subst IsDigits e (decimal-IsDigits n) in
    let k : length (connect_line (b ∷ h) (d ∷ ds) v) < 256 =
      subst (λ x. length (connect_line (b ∷ h) x v) < 256) e l in
    let val : atoi_from 0 (d ∷ ds) % 2 ^ 16 ≡ n =
      ap (λ x. atoi_from 0 x % 2 ^ 16) (sym e) ∙ omega (arith, atoi_from-decimal n (omega arith)) in
    subst
      (λ x.
        parse_connect (connect_line (b ∷ h) x v ++ cr ∷ rest)
        ≡ some (asks (record { host = b ∷ h; port = some n })))
      (sym e)
      (parse_connect-digits b d h ds v rest a p c k
        ∙ ap (λ x. some (asks (record { host = b ∷ h; port = some x }))) val)
