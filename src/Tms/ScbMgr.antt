-- ===== src/Tms/ScbMgr.antt =====
-- `SCBMgr` of tms/tms/SCB.h: control blocks are allocated once, recycled through a free list, and
-- numbered anew at each use. `none` is a read through a pointer to nothing.
pub mod Fresh
pub mod Watch
use https_tunnel_proxy.Base.{
  ℕ, ◌+◌, ◌%◌, ◌^◌, List, [], ◌∷◌, ◌++◌, Option, none, some, ◌==◌, if◌then◌else◌,
}
use https_tunnel_proxy.Tms.Types.{Scb, make_scb, reset_scb}

abbrev pub Heap : Type 0
Heap = ℕ → Option Scb

abbrev pub update : Heap → ℕ → Scb → Heap
update h p s q = if p == q then some s else h q

-- The manager, with the blocks that it has allocated and the next free address.
pub record ScbMgr : Type 0 where
  pub aval_pcb_id : ℕ
  pub scb_free_list : List ℕ
  pub heap : Heap
  pub next_addr : ℕ

-- `++aval_pcb_id`, of a U64.
abbrev pub next_number : ScbMgr → ℕ
next_number m = (m.aval_pcb_id + 1) % 2 ^ 64

abbrev take_free : ScbMgr → ℕ → List ℕ → Option Scb → Option (ℕ × ScbMgr)
take_free m p rest none = none
take_free m p rest (some s) = some (
  p,
  record m {
    aval_pcb_id = next_number m;
    scb_free_list = rest;
    heap = update m.heap p (record s { scbid = next_number m });
  },
)

abbrev take_from : ScbMgr → List ℕ → Option (ℕ × ScbMgr)
take_from m [] = some (
  m.next_addr,
  record m {
    aval_pcb_id = next_number m;
    heap = update m.heap m.next_addr (make_scb (next_number m));
    next_addr = m.next_addr + 1;
  },
)
take_from m (p ∷ rest) = take_free m p rest (m.heap p)

-- `NewSCB`
unfoldable pub new_scb : ScbMgr → Option (ℕ × ScbMgr)
unfolding make_scb
new_scb m = take_from m m.scb_free_list

abbrev recycle_at : ScbMgr → ℕ → Option Scb → Option ScbMgr
recycle_at m p none = none
recycle_at m p (some s) =
    some
      (record m { heap = update m.heap p (reset_scb s); scb_free_list = m.scb_free_list ++ p ∷ [] })

-- `RecycleSCB`
unfoldable pub recycle_scb : ScbMgr → ℕ → Option ScbMgr
unfolding reset_scb
recycle_scb m p = recycle_at m p (m.heap p)

pub record ScbWatchNode : Type 0 where
  pub scbid : ℕ
  pub traffic : ℕ
  pub scb : ℕ

pub record Lists : Type 0 where
  pub watch : List ScbWatchNode
  pub expire : List ScbWatchNode

abbrev keep_node : ScbWatchNode → Option Scb → Option Lists → Option Lists
keep_node n none rest = none
keep_node n (some s) none = none
keep_node n (some s) (some l) =
    if n.scbid == s.scbid
    then some (
        if n.traffic == s.traffic
        then record l { expire = n ∷ l.expire }
        else record l { watch = n ∷ l.watch })
    else some l

-- The first loop of `SCBWatchScan`: the nodes that stay, and those that go to the expire list, each in
-- the order of the watch list.
unfoldable pub scan_watch : Heap → List ScbWatchNode → Option Lists
scan_watch h [] = some (record { watch = []; expire = [] })
scan_watch h (n ∷ ns) = keep_node n (h n.scb) (scan_watch h ns)

abbrev back_to_watch : ScbWatchNode → Option Scb → List ScbWatchNode → Option (List ScbWatchNode)
back_to_watch n none watch = none
back_to_watch n (some s) watch = some (
    if n.scbid == s.scbid
    then (if n.traffic == s.traffic then watch else watch ++ n ∷ [])
    else watch)

-- The second loop, which empties the expire list.
unfoldable pub scan_expire :
    Heap → List ScbWatchNode → List ScbWatchNode → Option (List ScbWatchNode)
scan_expire h [] watch = some watch
scan_expire h (n ∷ ns) watch = elim (back_to_watch n (h n.scb) watch) [
  | none ↦ none
  | some watch' ↦ scan_expire h ns watch'
]

-- `SCBWatchScan` on the watch list; nodes that an earlier scan left in the expire list come first.
unfoldable pub scb_watch_scan : Heap → Lists → Option (List ScbWatchNode)
unfolding scan_watch scan_expire
scb_watch_scan h l = elim (scan_watch h l.watch) [
  | none ↦ none
  | some l' ↦ scan_expire h (l.expire ++ l'.expire) l'.watch
]
