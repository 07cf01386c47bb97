-- ===== src/Sdk/RecyclerTests.antt =====
-- The recycler of the client library on concrete input.
use https_tunnel_proxy.Base.{
  ◌≡◌, refl, [], ◌∷◌, ◌++◌, none, some, arith, Returns, ◌==◌, if◌then◌else◌,
}
use https_tunnel_proxy.Base.State.{◌>>◌}
use https_tunnel_proxy.Sdk.World.{ConnRecycleBlock, World, at, past_end}
use https_tunnel_proxy.Sdk.Connection.{delete_connect}
use https_tunnel_proxy.Sdk.Recycler.{crb_delay}
use https_tunnel_proxy.Sdk.Recycler.Delay.{IsNext, delayed, crb_delay-delete_connect}
use https_tunnel_proxy.Sdk.DownloadTests.{sys, world, program, block}

-- A second local program, with its block.
abbrev second : ConnRecycleBlock
second = record block { fd = 8; conn = some 2 }

abbrev world_two : World
world_two = record world {
  conns =
      λ p. if p == 2 then some (record program { sock_fd = 8; crb_it = at 1 }) else world.conns p;
  expire_list = record { id = 0; block = block } ∷ record { id = 1; block = second } ∷ [];
  next_node = 2;
}

world_two-IsNext : IsNext sys 0 1 block second [] 1 2 world_two
world_two-IsNext = record {
  nodes = refl;
  fresh = (omega arith, (omega arith, tt));
  differ = omega arith;
  conn = refl;
  other = refl;
  apart = omega arith;
  here = refl;
  there = tt;
}

crb_delay-delete_connect_example :
    Returns
      (λ q.
        (q.1.expire_list ≡ [] ++ record { id = 2; block = delayed sys block world_two } ∷ [])
        × (q.1.conns 1 ≡ none)
        × Returns (λ x. x.crb_it ≡ past_end) (q.1.conns 2))
      ((crb_delay sys 0 >> delete_connect sys 1) world_two)
crb_delay-delete_connect_example =
    crb_delay-delete_connect sys 0 1 block second [] 1 2 world_two world_two-IsNext
