-- ===== src/Sdk/Recycler/Delay.antt =====
-- `CRBDelay` of sdk/sdk/Recycler.cpp, and the end of the connection whose block it has delayed.
use https_tunnel_proxy.Base.{
  ℕ, ◌≡◌, ◌≢◌, refl, subst, inl, inr, List, [], ◌∷◌, ◌++◌, none, some, arith, Returns, Option-cases,
  All,
}
use https_tunnel_proxy.Base.State.{◌>>◌, >>=-Returns}
use https_tunnel_proxy.Sdk.World.{
  Connect, ConnRecycleBlock, Node, at, past_end, System, World, asked_time, t_proxy,
}
use https_tunnel_proxy.Sdk.World.Action.{gettimeofday}
use https_tunnel_proxy.Sdk.Recycler.{
  crb_new, recycled, change_block, seconds, crb_delay, crb_delete, erase_node, unwatch,
}
use https_tunnel_proxy.Sdk.Connection.{delete_connect, remove_event, control}

-- A block is changed at the end of a list that has no other node of this name.
change_block-append :
    (f : ConnRecycleBlock → ConnRecycleBlock) (ms : List Node) (n : ℕ) (b : ConnRecycleBlock)
    → All (λ m. m.id ≢ n) ms
    → change_block f (ms ++ record { id = n; block = b } ∷ []) n
      ≡ ms ++ record { id = n; block = f b } ∷ []
change_block-append f [] n b a = ground arith
change_block-append f (m ∷ ms) n b a = ground (arith, change_block-append f ms n b a.1, a.0)

-- The block that takes the place of a delayed one.
abbrev pub delayed : System → ConnRecycleBlock → World → ConnRecycleBlock
delayed sys b w = record {
  tv_sec = seconds (sys.now (asked_time ∷ w.calls));
  fd = b.fd;
  traffic = b.traffic;
  conn = b.conn;
}

module _ (sys : System) where
  -- The first two nodes, with the connections that they watch.
  pub record IsNext (n m : ℕ) (b d : ConnRecycleBlock) (rest : List Node) (p r : ℕ) (w : World)
      : Type 0 where
    pub nodes : w.expire_list ≡ record { id = n; block = b } ∷ record { id = m; block = d } ∷ rest
    pub fresh : All (λ x. x.id ≢ w.next_node) w.expire_list
    pub differ : n ≢ m
    pub conn : b.conn ≡ some p
    pub other : d.conn ≡ some r
    pub apart : r ≢ p
    pub here : Returns (λ c. c.type ≡ t_proxy) (w.conns p)
    pub there : Returns (λ _. Unit) (w.conns r)

  crb_delay-IsLost :
      (n m : ℕ) (b d : ConnRecycleBlock) (rest : List Node) (p r : ℕ) (c e : Connect) (w : World)
      → w.conns p ≡ some c
      → w.conns r ≡ some e
      → IsNext n m b d rest p r w
      → Returns
          (λ q.
            (q.1.expire_list
              ≡ record { id = m; block = d }
                ∷ (rest ++ record { id = w.next_node; block = delayed sys b w } ∷ []))
            × (q.1.conns p ≡ some (record c { crb_it = at m }))
            × (q.1.conns r ≡ some e))
          (crb_delay sys n w)
  unfolding crb_delay crb_new gettimeofday erase_node
  crb_delay-IsLost n m b d rest p r c e w h g i =
      let nodes = i.nodes in
      let old = (recycled w.recycle_list).0 in
      let f : All (λ x. x.id ≢ w.next_node)
          (record { id = n; block = b } ∷ record { id = m; block = d } ∷ rest) =
        subst (All (λ x. x.id ≢ w.next_node)) i.nodes i.fresh in
      let k = change_block-append (λ _. delayed sys b w) rest w.next_node old f.1.1 in
      let fn = f.0 in let fm = f.1.0 in ground (arith, nodes, k, fn, fm, i.differ, i.conn, i.apart)

  delete_connect-next :
      (m : ℕ) (d : ConnRecycleBlock) (rest : List Node) (p r : ℕ) (c e : Connect) (w : World)
      → w.expire_list ≡ record { id = m; block = d } ∷ rest
      → w.conns p ≡ some c
      → w.conns r ≡ some e
      → c.crb_it ≡ at m
      → c.type ≡ t_proxy
      → d.conn ≡ some r
      → r ≢ p
      → Returns
          (λ q.
            (q.1.expire_list ≡ rest)
            × (q.1.conns p ≡ none)
            × Returns (λ x. x.crb_it ≡ past_end) (q.1.conns r))
          (delete_connect sys p w)
  unfolding delete_connect remove_event control crb_delete erase_node unwatch
  delete_connect-next m d rest p r c e w l h g i t o a = ground arith

  -- A connection whose block has been delayed takes the next connection's block away when it ends:
  -- its own stays in the list, with the address of the object that is gone, and the next connection,
  -- which goes on, is no longer watched by any block. Conditions: the two blocks are the first of the
  -- list, each with its connection, the first of which is a local program's, and the list's nodes
  -- have other names than the next one.
  pub crb_delay-delete_connect :
      (n m : ℕ) (b d : ConnRecycleBlock) (rest : List Node) (p r : ℕ) (w : World)
      → IsNext n m b d rest p r w
      → Returns
          (λ q.
            (q.1.expire_list ≡ rest ++ record { id = w.next_node; block = delayed sys b w } ∷ [])
            × (q.1.conns p ≡ none)
            × Returns (λ x. x.crb_it ≡ past_end) (q.1.conns r))
          ((crb_delay sys n >> delete_connect sys p) w)
  crb_delay-delete_connect n m b d rest p r w i = elim (Option-cases (w.conns p)) [
    | inl h ↦ absurd (subst (Returns _) h i.here)
    | inr (c, h) ↦ elim (Option-cases (w.conns r)) [
      | inl g ↦ absurd (subst (Returns _) g i.there)
      | inr (e, g) ↦
          let list = rest ++ record { id = w.next_node; block = delayed sys b w } ∷ [] in
          >>=-Returns
            (λ q.
              (q.1.expire_list ≡ record { id = m; block = d } ∷ list)
              × (q.1.conns p ≡ some (record c { crb_it = at m }))
              × (q.1.conns r ≡ some e))
            _ (crb_delay sys n) _ w (crb_delay-IsLost n m b d rest p r c e w h g i)
            (λ _ v x.
              delete_connect-next m d list p r (record c { crb_it = at m }) e v x.0 x.1 x.2 refl
                (subst (Returns _) h i.here) i.other i.apart)
    ]
  ]
