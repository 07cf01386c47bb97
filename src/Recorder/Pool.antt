-- ===== src/Recorder/Pool.antt =====
-- The pool of connections to Redis: `RedisConnPool` of
-- trafficRecorder/trafficRecorder/redis_conn_pool.cpp. A connection is its number. The channel
-- `ready_chan_`, a channel of the coroutine library, is the number of its tokens, at most
-- `pool_size_`; a coroutine waits on it while it is empty, and runs up to its next wait.
pub mod Shared
use https_tunnel_proxy.Base.{
  ℕ, zero, suc, ◌+◌, ◌-◌, ◌||◌, Option, none, some, List, [], ◌∷◌, length, ltb, ◌==◌, if◌then◌else◌,
}

pub record Pool : Type 0 where
  -- the tokens in the channel, and how many it holds
  pub ready : ℕ
  pub pool_size : ℕ
  -- `redis_conn_stack_`, the top first
  pub stack : List ℕ

-- The loop of `init_redis_pool`, with `n` rounds done.
unfoldable pub init_loop : ℕ → ℕ → Pool
init_loop size zero = record { ready = 0; pool_size = size; stack = [] }
init_loop size (suc n) =
    let p = init_loop size n in record p { ready = p.ready + 1; stack = n ∷ p.stack }

-- `init_redis_pool` on a pool that has no channel; `none` is -1.
unfoldable pub init_redis_pool : List ℕ → ℕ → Option Pool
init_redis_pool host_ip size =
    if (size == 0) || (length host_ip == 0) then none else some (init_loop size size)

-- How `get_connection` ends: it waits, it reads the top of an empty stack, or it has a connection.
pub data Got : Type 0 where
  waits undefined : Got
  got : ℕ → Pool → Got

-- `get_connection` behind `co_wait`.
abbrev pub pop : Pool → List ℕ → Got
pop p [] = undefined
pop p (c ∷ cs) = got c (record p { stack = cs })

unfoldable pub get_connection : Pool → Got
get_connection p = if p.ready == 0 then waits else pop (record p { ready = p.ready - 1 }) p.stack

-- `push_back_connection`; `none`: the channel is full.
unfoldable pub push_back_connection : ℕ → Pool → Option Pool
push_back_connection c p =
    if ltb p.ready p.pool_size
    then some (record p { ready = p.ready + 1; stack = c ∷ p.stack })
    else none

-- `exec_command` and its siblings: a command on a connection of the pool. `none`: it waits.
unfoldable pub exec_command {ℓ} : {A : Type ℓ} → (ℕ → A) → Pool → Option (A × Pool)
exec_command run p = elim (get_connection p) [
  | waits ↦ none
  | undefined ↦ none
  | got c p' ↦ elim (push_back_connection c p') [ none ↦ none | some q ↦ some (run c, q) ]
]
