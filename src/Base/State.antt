-- ===== src/Base/State.antt =====
-- Code that changes a state and can be undefined: `none` is a read through a pointer to nothing, or a
-- write behind an array.
use mathlib.Core.Path.{subst}
use mathlib.Core.Logic.{inl, inr}
use mathlib.Core.Option.{Option, none, some}
use native.Mathlib.Omega.{arith}
use https_tunnel_proxy.Base.Tests.{Returns, Option-cases}

abbrev pub State : Type 0 → Type 0 → Type 0
State S A = S → Option (A × S)

module _ {S A : Type 0} where
  abbrev pub pure : A → State S A
  pure a w = some (a, w)

  abbrev pub undefined : State S A
  undefined w = none

  abbrev pub gets : (S → A) → State S A
  gets f w = some (f w, w)

  -- `*p`, of a pointer that may be null.
  abbrev pub pointer : Option A → State S A
  pointer none w = none
  pointer (some a) w = some (a, w)

  -- The value of the member that `f` reads through an address.
  abbrev pub read_at : (S → Option A) → State S A
  read_at f w = elim (f w) [ none ↦ none | some a ↦ some (a, w) ]

infixl 5 ◌>>=◌ ◌>>◌
abbrev pub ◌>>=◌ : {S A B : Type 0} → State S A → (A → State S B) → State S B
◌>>=◌ m f w = elim (m w) [ none ↦ none | some (a, w') ↦ f a w' ]

abbrev pub ◌>>◌ : {S A B : Type 0} → State S A → State S B → State S B
m >> k = m >>= λ _. k

module _ {S : Type 0} where
  abbrev pub skip : State S (Unit {0})
  skip w = some (tt, w)

  abbrev pub modify : (S → S) → State S (Unit {0})
  modify f w = some (tt, f w)

-- What a first action establishes is what the next one may assume.
pub >>=-Returns :
    {S A B : Type 0} (P : A × S → Type 0) (Q : B × S → Type 0) (m : State S A) (f : A → State S B)
    (w : S)
    → Returns P (m w)
    → ((a : A) (w' : S) → P (a, w') → Returns Q (f a w'))
    → Returns Q ((m >>= f) w)
>>=-Returns P Q m f w h k = elim (Option-cases (m w)) [
  | inl e ↦ ground arith
  | inr (q, e) ↦ rw (e, ◌>>=◌) (k q.0 q.1 (subst (Returns P) e h))
]
