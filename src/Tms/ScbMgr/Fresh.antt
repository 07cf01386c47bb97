-- ===== src/Tms/ScbMgr/Fresh.antt =====
-- The numbers of control blocks, over creations and recyclings: tms/tms/SCB.h.
use https_tunnel_proxy.Base.{
  ℕ, ◌+◌, ◌^◌, ◌≤◌, ◌<◌, ◌≡◌, refl, ◌≢◌, List, [], ◌∷◌, Option, none, some, arith, All, Returns,
  Option-cases, inl, inr,
}
use https_tunnel_proxy.Tms.Types.{Scb, make_scb}
use https_tunnel_proxy.Tms.ScbMgr.{ScbMgr, new_scb, recycle_scb, take_free, take_from}

pub data Op : Type 0 where
  create : Op
  recycle : ℕ → Op

abbrev second : Option (ℕ × ScbMgr) → Option ScbMgr
second none = none
second (some (p, m)) = some m

unfoldable pub step : ScbMgr → Op → Option ScbMgr
step m create = second (new_scb m)
step m (recycle p) = recycle_scb m p

unfoldable pub run : ScbMgr → List Op → Option ScbMgr
run m [] = some m
run m (o ∷ os) = elim (step m o) [ none ↦ none | some m' ↦ run m' os ]

-- How many blocks the operations create.
abbrev pub creations : List Op → ℕ
creations [] = 0
creations (create ∷ os) = 1 + creations os
creations (recycle p ∷ os) = creations os

abbrev created : Op → ℕ
created create = 1
created (recycle p) = 0

creations-cons : (o : Op) (os : List Op) → creations (o ∷ os) ≡ created o + creations os
creations-cons create os = refl
creations-cons (recycle p) os = omega arith

-- The block at `p` does not have the number `k`, which was given out before.
abbrev pub IsPast : ℕ → ℕ → ScbMgr → Type 0
IsPast k p m = Returns (λ s. s.scbid ≢ k) (m.heap p) × (0 < k) × (k ≤ m.aval_pcb_id)

step-IsPast :
    (k p : ℕ) (m : ScbMgr) (o : Op) (m' : ScbMgr)
    → m.aval_pcb_id + created o < 2 ^ 64
    → step m o ≡ some m'
    → IsPast k p m
    → IsPast k p m' × (m'.aval_pcb_id ≡ m.aval_pcb_id + created o)
unfolding step new_scb recycle_scb
step-IsPast k p m create m' l e h = ground arith
step-IsPast k p m (recycle q) m' l e h = ground arith

run-IsPast :
    (k p : ℕ) (m : ScbMgr) (os : List Op) (m' : ScbMgr)
    → m.aval_pcb_id + creations os < 2 ^ 64
    → run m os ≡ some m'
    → IsPast k p m
    → IsPast k p m'
unfolding run
run-IsPast k p m [] m' l e h = ground arith
run-IsPast k p m (o ∷ os) m' l e h = elim (Option-cases (step m o)) [
  | inl s ↦ ground arith
  | inr (n, s) ↦
      let (past, c) = step-IsPast k p m o n (omega (arith, creations-cons o os)) s h in
      run-IsPast k p n os m' (omega (arith, c, creations-cons o os)) (ground arith) past
]

recycle-number :
    (m m' : ScbMgr) (p : ℕ) → recycle_scb m p ≡ some m' → m'.aval_pcb_id ≡ m.aval_pcb_id
unfolding recycle_scb
recycle-number m m' p e = ground arith

recycle-IsPast :
    (k p : ℕ) (m m' : ScbMgr)
    → 0 < k
    → k ≤ m.aval_pcb_id
    → recycle_scb m p ≡ some m'
    → IsPast k p m'
unfolding recycle_scb
recycle-IsPast k p m m' z h e = ground arith

-- Once a block has been recycled, no later use of it has a number that was given out before, after
-- any history of creations and recyclings in which the counter, a U64, does not wrap: a note of its
-- old number does not match it again.
pub recycle-run :
    (k p : ℕ) (m n m' : ScbMgr) (os : List Op)
    → 0 < k
    → k ≤ m.aval_pcb_id
    → m.aval_pcb_id + creations os < 2 ^ 64
    → recycle_scb m p ≡ some n
    → run n os ≡ some m'
    → Returns (λ s. s.scbid ≢ k) (m'.heap p)
recycle-run k p m n m' os z h l e r =
    let same = recycle-number m n p e in
    (run-IsPast k p n os m' (omega (arith, same)) r (recycle-IsPast k p m n z h e)).0

abbrev pub IsNumbered : ℕ → Option Scb → Type 0
IsNumbered last none = Unit
IsNumbered last (some s) = s.scbid ≤ last

-- The blocks of the free list are allocated and out of use, no number is above the last one given
-- out, and the next address is free.
pub record IsValid (m : ScbMgr) : Type 0 where
  pub free : All (λ p. Returns (λ s. s.scbid ≡ 0) (m.heap p)) m.scb_free_list
  pub numbered : (p : ℕ) → IsNumbered m.aval_pcb_id (m.heap p)
  pub unused : (p : ℕ) → m.next_addr ≤ p → m.heap p ≡ none

-- The block at address `r.0` is new: its number is the next one, which no block had, and no other
-- block has changed.
abbrev pub IsFresh : ScbMgr → ℕ × ScbMgr → Type 0
IsFresh m r =
    Returns (λ s. s.scbid ≡ m.aval_pcb_id + 1) (r.1.heap r.0)
    × (r.1.aval_pcb_id ≡ m.aval_pcb_id + 1)
    × ((q : ℕ) → q ≢ r.0 → r.1.heap q ≡ m.heap q)
    × ((q : ℕ) (s : Scb) → m.heap q ≡ some s → s.scbid ≢ m.aval_pcb_id + 1)

not-numbered : (n : ℕ) (o : Option Scb) (s : Scb) → IsNumbered n o → o ≡ some s → s.scbid ≢ n + 1
not-numbered n none s h e = cc
not-numbered n (some t) s h e = ground arith

take_free-IsFresh :
    (m : ScbMgr) (p : ℕ) (rest : List ℕ) (s : Scb)
    → m.heap p ≡ some s
    → m.aval_pcb_id + 1 < 2 ^ 64
    → IsValid m
    → Returns (IsFresh m) (take_free m p rest (some s))
take_free-IsFresh m p rest s e l v = (
  ground arith,
  ground arith,
  λ q n. ground arith,
  λ q t h. not-numbered m.aval_pcb_id (m.heap q) t (v.numbered q) h,
)

take-IsFresh :
    (m : ScbMgr) (free : List ℕ)
    → All (λ p. Returns (λ s. s.scbid ≡ 0) (m.heap p)) free
    → m.aval_pcb_id + 1 < 2 ^ 64
    → IsValid m
    → Returns (IsFresh m) (take_from m free)
unfolding make_scb
take-IsFresh m [] f l v = (
  ground arith,
  ground arith,
  λ q n. ground arith,
  λ q t h. not-numbered m.aval_pcb_id (m.heap q) t (v.numbered q) h,
)
take-IsFresh m (p ∷ rest) f l v = elim (Option-cases (m.heap p)) [
  | inl e ↦ absurd (rw e at f.0)
  | inr (s, e) ↦ rw e (take_free-IsFresh m p rest s e l v)
]

-- `NewSCB` always gives a block, with a number that no block has, and changes no other block, if the
-- free list holds allocated blocks, no number is above the last one, and the counter does not wrap.
pub new_scb-IsFresh :
    (m : ScbMgr) → m.aval_pcb_id + 1 < 2 ^ 64 → IsValid m → Returns (IsFresh m) (new_scb m)
unfolding new_scb
new_scb-IsFresh m l v = take-IsFresh m m.scb_free_list v.free l v
