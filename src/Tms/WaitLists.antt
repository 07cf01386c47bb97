-- ===== src/Tms/WaitLists.antt =====
-- `AddWaitLists` and `ExpireWaitLists` of tms/tms/DnsCache.cpp, on the list by time. A time is a number
-- of seconds that is not negative.
use https_tunnel_proxy.Base.{
  ℕ, ◌+◌, ◌≤◌, ◌≡◌, refl, Bool, not, List, [], ◌∷◌, arith, ltb, if◌then◌else◌, keep_if, All,
  Bool-cases, inl, inr,
}

-- USCBId: the user and the number of the control block.
pub record UscbId : Type 0 where
  pub mobile : ℕ
  pub app : ℕ
  pub scbid : ℕ

pub record Waiting : Type 0 where
  pub time : ℕ
  pub id : UscbId

-- `_expiring_scb.insert`: a multimap by time, a new entry behind those of the same time.
unfoldable pub insert : Waiting → List Waiting → List Waiting
insert w [] = w ∷ []
insert w (v ∷ vs) = let rest = insert w vs in if ltb w.time v.time then w ∷ (v ∷ vs) else v ∷ rest

-- `iter->first < tvs - 5`
abbrev pub is_expired : ℕ → Waiting → Bool
is_expired now w = ltb (w.time + 5) now

-- `ExpireWaitLists` at the time `now`.
unfoldable pub expire_wait_lists : ℕ → List Waiting → List Waiting
expire_wait_lists now [] = []
expire_wait_lists now (w ∷ ws) =
    let rest = expire_wait_lists now ws in if is_expired now w then rest else w ∷ ws

-- In the order of time.
abbrev pub IsSorted : List Waiting → Type 0
IsSorted [] = Unit
IsSorted (w ∷ ws) = All (λ v. w.time ≤ v.time) ws × IsSorted ws

-- The list that a sequence of `AddWaitLists` gives.
abbrev pub added : List Waiting → List Waiting
added [] = []
added (w ∷ ws) = insert w (added ws)

All-insert :
    (t : ℕ) (w : Waiting) (vs : List Waiting)
    → t ≤ w.time
    → All (λ v. t ≤ v.time) vs
    → All (λ v. t ≤ v.time) (insert w vs)
unfolding insert
All-insert t w [] h a = (h, tt)
All-insert t w (v ∷ vs) h a = ground (arith, All-insert t w vs h a.1)

All-later :
    (t u : ℕ) (vs : List Waiting) → t ≤ u → All (λ v. u ≤ v.time) vs → All (λ v. t ≤ v.time) vs
All-later t u [] h a = tt
All-later t u (v ∷ vs) h a = (omega (arith, a.0), All-later t u vs h a.1)

insert-IsSorted : (w : Waiting) (vs : List Waiting) → IsSorted vs → IsSorted (insert w vs)
unfolding insert
insert-IsSorted w [] s = (tt, tt)
insert-IsSorted w (v ∷ vs) s = elim (Bool-cases (ltb w.time v.time)) [
  | inl t ↦ rw t ((ground arith, All-later w.time v.time vs (ground arith) s.0), s)
  | inr f ↦ rw f (All-insert v.time w vs (ground arith) s.0, insert-IsSorted w vs s.1)
]

added-IsSorted : (ws : List Waiting) → IsSorted (added ws)
added-IsSorted [] = tt
added-IsSorted (w ∷ ws) = insert-IsSorted w (added ws) (added-IsSorted ws)

keep_if-All :
    (now t : ℕ) (ws : List Waiting)
    → now ≤ t + 5
    → All (λ v. t ≤ v.time) ws
    → keep_if (λ w. not (is_expired now w)) ws ≡ ws
keep_if-All now t [] h a = refl
keep_if-All now t (w ∷ ws) h a = rw (keep_if-All now t ws h a.1) (ground (arith, a.0))

expire_wait_lists-IsSorted :
    (now : ℕ) (ws : List Waiting)
    → IsSorted ws
    → expire_wait_lists now ws ≡ keep_if (λ w. not (is_expired now w)) ws
unfolding expire_wait_lists
expire_wait_lists-IsSorted now [] s = refl
expire_wait_lists-IsSorted now (w ∷ ws) s =
    ground (arith, expire_wait_lists-IsSorted now ws s.1, keep_if-All now w.time ws)

-- Whatever was added in whatever order, `ExpireWaitLists` takes away exactly the entries that are more
-- than five seconds old, although it stops at the first that is not, and keeps the others in order.
pub expire_wait_lists-added :
    (now : ℕ) (ws : List Waiting)
    → expire_wait_lists now (added ws) ≡ keep_if (λ w. not (is_expired now w)) (added ws)
expire_wait_lists-added now ws = expire_wait_lists-IsSorted now (added ws) (added-IsSorted ws)
