-- ===== src/Sdk/Recycler.antt =====
-- The blocks that watch the connections of local programs: `CRBNew`, `CRBDelay` and `CRBDelete` of
-- sdk/sdk/Recycler.cpp. An iterator of a node that has been erased leads nowhere.
pub mod Scan
pub mod Delay
use https_tunnel_proxy.Base.{
  ℕ, ◌+◌, ◌/◌, List, [], ◌∷◌, ◌++◌, Option, none, some, ◌==◌, if◌then◌else◌,
}
use https_tunnel_proxy.Base.State.{
  pure, undefined, read_at, ◌>>=◌, ◌>>◌, skip, gets, modify, pointer,
}
use https_tunnel_proxy.Sdk.World.{ConnRecycleBlock, Node, Iterator, unset, past_end, at, System}
use https_tunnel_proxy.Sdk.World.Action.{Action, edit_conn, gettimeofday}

-- `new ConnRecycleBlock`, and what `Reset` makes of one.
abbrev pub empty_block : ConnRecycleBlock
empty_block = record { tv_sec = 0; fd = 0; traffic = 0; conn = none }

abbrev pub find_block : List Node → ℕ → Option ConnRecycleBlock
find_block [] n = none
find_block (m ∷ ms) n = let rest = find_block ms n in if m.id == n then some m.block else rest

-- `*it`
abbrev pub block_at : ℕ → Action ConnRecycleBlock
block_at n = read_at (λ w. find_block w.expire_list n)

abbrev pub change_block : (ConnRecycleBlock → ConnRecycleBlock) → List Node → ℕ → List Node
change_block f [] n = []
change_block f (m ∷ ms) n =
    let rest = change_block f ms n in
    if m.id == n then record m { block = f m.block } ∷ ms else m ∷ rest

abbrev pub edit_block : ℕ → (ConnRecycleBlock → ConnRecycleBlock) → Action (Unit {0})
edit_block n f = modify (λ w. record w { expire_list = change_block f w.expire_list n })

-- The node at the front of a list.
abbrev pub first_of : List Node → Iterator
first_of [] = past_end
first_of (m ∷ ms) = at m.id

-- `++it`
abbrev pub behind : List Node → ℕ → Iterator
behind [] n = past_end
behind (m ∷ ms) n = let rest = behind ms n in if m.id == n then first_of ms else rest

abbrev pub without_node : List Node → ℕ → List Node
without_node [] n = []
without_node (m ∷ ms) n = let rest = without_node ms n in if m.id == n then ms else m ∷ rest

-- `expire_list.erase(it)`: the result is the iterator behind it.
unfoldable pub erase_node : ℕ → Action Iterator
erase_node n = do
  it ← gets (λ w. behind w.expire_list n)
  modify (λ w. record w { expire_list = without_node w.expire_list n })
  pure it

-- The block that `CRBNew` takes, and the blocks that stay.
abbrev pub recycled : List ConnRecycleBlock → ConnRecycleBlock × List ConnRecycleBlock
recycled [] = (empty_block, [])
recycled (b ∷ bs) = (b, bs)

-- `CRBNew`: a block that is used again keeps what it holds.
unfoldable pub crb_new : Action ℕ
crb_new w =
    let (b, bs) = recycled w.recycle_list in
    some (
      w.next_node,
      record w {
        expire_list = w.expire_list ++ (record { id = w.next_node; block = b }) ∷ [];
        next_node = w.next_node + 1;
        recycle_list = bs;
      },
    )

abbrev pub push_recycled : ConnRecycleBlock → Action (Unit {0})
push_recycled b = modify (λ w. record w { recycle_list = w.recycle_list ++ b ∷ [] })

abbrev pub seconds : ℕ → ℕ
seconds t = t / 1000000

-- `CRBDelay`: its argument is by reference, so that the result is what the caller goes on with.
unfoldable pub crb_delay : System → ℕ → Action Iterator
unfolding crb_new erase_node gettimeofday
crb_delay sys n = do
  to_remove ← block_at n
  m ← crb_new
  now ← gettimeofday sys
  edit_block m (λ b. record {
    tv_sec = seconds now;
    fd = to_remove.fd;
    traffic = to_remove.traffic;
    conn = to_remove.conn;
  })
  later ← gettimeofday sys
  push_recycled (record to_remove { tv_sec = seconds later })
  it ← erase_node n
  p ← pointer to_remove.conn
  edit_conn p (λ c. record c { crb_it = it })
  pure it

-- `to_remove->conn->crb_it = expire_list.end()`
unfoldable pub unwatch : Option ℕ → Action (Unit {0})
unwatch none = skip
unwatch (some p) = edit_conn p (λ c. record c { crb_it = past_end })

-- `CRBDelete`: its argument is by value.
unfoldable pub crb_delete : Iterator → Action (Unit {0})
unfolding erase_node unwatch
crb_delete unset = undefined
crb_delete past_end = skip
crb_delete (at n) = do
  to_remove ← block_at n
  unwatch to_remove.conn
  push_recycled empty_block
  erase_node n
  skip
