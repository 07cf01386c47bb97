-- ===== src/Recorder/Pool/Shared.antt =====
-- Coroutines that take connections from the pool and give them back, in any order.
use https_tunnel_proxy.Base.{
  ℕ_discrete, ℕ, zero, suc, ◌+◌, ◌-◌, ◌≡◌, refl, ◌≢◌, Option, none, some, List, [], ◌∷◌, arith,
  length, ltb, ◌==◌, if◌then◌else◌, Returns,
}
use https_tunnel_proxy.Recorder.Pool.{
  Pool, init_loop, init_redis_pool, get_connection, push_back_connection, waits, undefined, got,
}

-- How often a number occurs.
abbrev pub count : ℕ → List ℕ → ℕ
count x [] = 0
count x (y ∷ ys) = let rest = count x ys in if x == y then rest + 1 else rest

-- One occurrence less.
unfoldable pub remove : ℕ → List ℕ → List ℕ
remove x [] = []
remove x (y ∷ ys) = let rest = remove x ys in if x == y then ys else y ∷ rest

-- The pool, and the connections that coroutines have.
pub record Shared : Type 0 where
  pub pool : Pool
  pub lent : List ℕ

pub data Event : Type 0 where
  take_one : Event
  give : ℕ → Event

-- A coroutine that has to wait does nothing; one gives back only what it has.
unfoldable pub step : Shared → Event → Option Shared
step s take_one = elim (get_connection s.pool) [
  | waits ↦ some s
  | undefined ↦ none
  | got c p ↦ some (record { pool = p; lent = c ∷ s.lent })
]
step s (give c) = if count c s.lent == 0 then some s else (elim (push_back_connection c s.pool) [
  | none ↦ none
  | some p ↦ some (record { pool = p; lent = remove c s.lent })
])

unfoldable pub run : Shared → List Event → Option Shared
run s [] = some s
run s (e ∷ es) = elim (step s e) [ none ↦ none | some s' ↦ run s' es ]

-- There is a token for each connection of the stack, and each of the `n` connections is in one place.
abbrev pub IsShared : ℕ → Shared → Type 0
IsShared n s =
    (s.pool.ready ≡ length s.pool.stack)
    × (s.pool.pool_size ≡ n)
    × (length s.pool.stack + length s.lent ≡ n)
    × ((x : ℕ) → count x s.pool.stack + count x s.lent ≡ (if ltb x n then 1 else 0))

count-remove :
    (x c : ℕ) (ys : List ℕ)
    → count c ys ≢ 0
    → count x (remove c ys) + (if x == c then 1 else 0) ≡ count x ys
unfolding remove
count-remove x c [] h = ground arith
count-remove x c (y ∷ ys) h = ground (arith, count-remove x c ys)

length-remove : (c : ℕ) (ys : List ℕ) → count c ys ≢ 0 → length (remove c ys) + 1 ≡ length ys
unfolding remove
length-remove c [] h = ground arith
length-remove c (y ∷ ys) h = ground (arith, length-remove c ys)

init_loop-IsShared :
    (size n : ℕ)
    → ((init_loop size n).ready ≡ length (init_loop size n).stack)
      × ((init_loop size n).pool_size ≡ size)
      × (length (init_loop size n).stack ≡ n)
      × ((x : ℕ) → count x (init_loop size n).stack ≡ (if ltb x n then 1 else 0))
unfolding init_loop
init_loop-IsShared size zero = (refl, refl, refl, λ x. ground arith)
init_loop-IsShared size (suc n) =
    let (a, b, c, d) = init_loop-IsShared size n in
    (ground arith, ground arith, ground arith, λ x. ground (arith, d x))

take_from :
    (n ready size : ℕ) (stack lent : List ℕ)
    → IsShared n
        (record { pool = record { ready = ready; pool_size = size; stack = stack }; lent = lent })
    → Returns (IsShared n) (
        step
          (record { pool = record { ready = ready; pool_size = size; stack = stack }; lent = lent })
          take_one)
unfolding step get_connection
take_from n ready size [] lent h =
    let from : Shared = record {
      pool = record { ready = ready; pool_size = size; stack = [] };
      lent = lent;
    } in
    let e : step from take_one ≡ some from = ground (arith, h.0) in rw e h
take_from n ready size (c ∷ cs) lent h =
    let from : Shared = record {
      pool = record { ready = ready; pool_size = size; stack = c ∷ cs };
      lent = lent;
    } in
    let to : Shared = record {
      pool = record { ready = ready - 1; pool_size = size; stack = cs };
      lent = c ∷ lent;
    } in
    let e : step from take_one ≡ some to = ground (arith, h.0) in
    rw e (ground (arith, h.0), h.1, ground (arith, h.2), λ x. ground (arith, h.3 x))

take-IsShared : (n : ℕ) (s : Shared) → IsShared n s → Returns (IsShared n) (step s take_one)
take-IsShared n s h = take_from n s.pool.ready s.pool.pool_size s.pool.stack s.lent h

give-IsShared : (n c : ℕ) (s : Shared) → IsShared n s → Returns (IsShared n) (step s (give c))
unfolding step push_back_connection
give-IsShared n c s h = elim (ℕ_discrete (count c s.lent) 0) [
  | yes z ↦ rw z h
  | no z ↦
      let to : Shared = record {
        pool = record s.pool { ready = s.pool.ready + 1; stack = c ∷ s.pool.stack };
        lent = remove c s.lent;
      } in
      let l = length-remove c s.lent z in
      let e : step s (give c) ≡ some to = ground (arith, h.0, h.1, h.2, l) in
      rw e (
        ground (arith, h.0),
        h.1,
        ground (arith, h.2, l),
        λ x. ground (arith, h.3 x, count-remove x c s.lent z),
      )
]

step-IsShared : (n : ℕ) (e : Event) (s : Shared) → IsShared n s → Returns (IsShared n) (step s e)
step-IsShared n take_one s h = take-IsShared n s h
step-IsShared n (give c) s h = give-IsShared n c s h

then_run :
    (n : ℕ) (es : List Event) (o : Option Shared)
    → Returns (IsShared n) o
    → ((s : Shared) → IsShared n s → Returns (IsShared n) (run s es))
    → Returns (IsShared n) (elim o [ none ↦ none | some s ↦ run s es ])
then_run n es none h f = h
then_run n es (some s) h f = f s h

run-IsShared :
    (n : ℕ) (es : List Event) (s : Shared) → IsShared n s → Returns (IsShared n) (run s es)
unfolding run
run-IsShared n [] s h = h
run-IsShared n (e ∷ es) s h =
    then_run n es (step s e) (step-IsShared n e s h) (λ s' h'. run-IsShared n es s' h')

init_redis_pool_lem :
    (host_ip : List ℕ) (size : ℕ)
    → host_ip ≢ []
    → size ≢ 0
    → init_redis_pool host_ip size ≡ some (init_loop size size)
unfolding init_redis_pool
init_redis_pool_lem [] size h z = ground arith
init_redis_pool_lem (b ∷ bs) size h z = ground arith

-- A pool of at least one connection, for a host that is not empty, is made, and then coroutines may
-- take connections and give back those that they have, in any order: none ever reads the top of an
-- empty stack or waits to give one back, there is a token for each connection of the stack, and every
-- connection is in exactly one place, so that no two coroutines have the same.
pub init_redis_pool-run :
    (host_ip : List ℕ) (size : ℕ) (es : List Event)
    → host_ip ≢ []
    → size ≢ 0
    → Returns
        (λ p. Returns (IsShared size) (run (record { pool = p; lent = [] }) es))
        (init_redis_pool host_ip size)
init_redis_pool-run host_ip size es h z =
    let (a, b, c, d) = init_loop-IsShared size size in
    rw (init_redis_pool_lem host_ip size h z) (
      run-IsShared size es (record { pool = init_loop size size; lent = [] })
        (a, b, ground (arith, c), λ x. ground (arith, d x)))
