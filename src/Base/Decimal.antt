-- ===== src/Base/Decimal.antt =====
-- Numbers as decimal texts: what `%llu` prints, and what `atoi` and `atoll` read of digits.
use native.Mathlib.Nat.{pow-suc}
use Prim.Native.Nat.{ℕ, zero, suc, ◌+◌, ◌-◌, ◌*◌, ◌/◌, ◌%◌, ◌^◌, ◌<◌}
use mathlib.Core.Path.{◌≡◌}
use mathlib.Core.Logic.{inl, inr}
use mathlib.Core.Bool.{Bool, true, ◌&&◌}
use mathlib.Core.List.{List, [], ◌∷◌, ◌++◌}
use native.Mathlib.Omega.{arith}
use https_tunnel_proxy.Base.Tests.{ltb, leb, if◌then◌else◌, Bool-cases}
use https_tunnel_proxy.Base.Lists.{All}

abbrev pub is_digit : ℕ → Bool
is_digit b = leb b'0' b && leb b b'9'

-- The number of the digits at the front, behind the number `n`.
unfoldable pub atoi_from : ℕ → List ℕ → ℕ
atoi_from n [] = n
atoi_from n (b ∷ s) = let rest = atoi_from (n * 10 + (b - b'0')) s in if is_digit b then rest else n

-- At most `k` digits.
unfoldable pub decimal_from : ℕ → ℕ → List ℕ
decimal_from zero n = []
decimal_from (suc k) n =
    let rest = decimal_from k (n / 10) in
    if ltb n 10 then (b'0' + n) ∷ [] else rest ++ (b'0' + n % 10) ∷ []

-- A U64 has at most 20 digits.
unfoldable pub decimal : ℕ → List ℕ
unfolding decimal_from
decimal n = decimal_from 20 n

abbrev pub IsDigits : List ℕ → Type 0
IsDigits ds = All (λ b. is_digit b ≡ true) ds

IsDigits-append : (xs : List ℕ) (d : ℕ) → d < 10 → IsDigits xs → IsDigits (xs ++ (b'0' + d) ∷ [])
IsDigits-append [] d h a = (ground arith, tt)
IsDigits-append (x ∷ xs) d h a = (a.0, IsDigits-append xs d h a.1)

pub decimal_from-IsDigits : (k n : ℕ) → IsDigits (decimal_from k n)
unfolding decimal_from
decimal_from-IsDigits zero n = tt
decimal_from-IsDigits (suc k) n =
    let a =
      IsDigits-append (decimal_from k (n / 10)) (n % 10) (omega arith)
        (decimal_from-IsDigits k (n / 10)) in
    ground (arith, a)

atoi_from-append :
    (xs : List ℕ) (m d : ℕ)
    → d < 10
    → IsDigits xs
    → atoi_from m (xs ++ (b'0' + d) ∷ []) ≡ atoi_from m xs * 10 + d
unfolding atoi_from
atoi_from-append [] m d h a = ground arith
atoi_from-append (x ∷ xs) m d h a =
    ground (arith, atoi_from-append xs (m * 10 + (x - b'0')) d h a.1, a.0)

pub atoi_from-decimal_from : (k n : ℕ) → n < 10 ^ k → atoi_from 0 (decimal_from k n) ≡ n
unfolding decimal_from atoi_from
atoi_from-decimal_from zero n h = omega arith
atoi_from-decimal_from (suc k) n h =
    let e = pow-suc 10 k in
    let ih = atoi_from-decimal_from k (n / 10) in
    let snoc =
      atoi_from-append (decimal_from k (n / 10)) 0 (n % 10) (omega arith)
        (decimal_from-IsDigits k (n / 10)) in
    ground (arith, e, ih, snoc)

decimal_from_cons : (k n : ℕ) → (d : ℕ) × (ds : List ℕ) × (decimal_from (suc k) n ≡ d ∷ ds)
unfolding decimal_from
decimal_from_cons zero n = elim (Bool-cases (ltb n 10)) [
  | inl e ↦ (b'0' + n, [], ground arith)
  | inr e ↦ (b'0' + n % 10, [], ground arith)
]
decimal_from_cons (suc k) n = elim (Bool-cases (ltb n 10)) [
  | inl e ↦ (b'0' + n, [], ground arith)
  | inr e ↦
      let (d, ds, h) = decimal_from_cons k (n / 10) in
      (d, ds ++ (b'0' + n % 10) ∷ [], ground (arith, h))
]

-- A number is printed as one digit at least, and digits only, that are read as the number.
pub atoi_from-decimal : (n : ℕ) → n < 2 ^ 64 → atoi_from 0 (decimal n) ≡ n
unfolding decimal
atoi_from-decimal n h = atoi_from-decimal_from 20 n (omega arith)

pub decimal_cons : (n : ℕ) → (d : ℕ) × (ds : List ℕ) × (decimal n ≡ d ∷ ds)
unfolding decimal
decimal_cons n = decimal_from_cons 19 n

pub decimal-IsDigits : (n : ℕ) → IsDigits (decimal n)
unfolding decimal
decimal-IsDigits n = decimal_from-IsDigits 20 n
