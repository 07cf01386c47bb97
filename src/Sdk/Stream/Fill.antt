-- ===== src/Sdk/Stream/Fill.antt =====
-- The state behind `recv` and the counting, in a round of `StreamRecvEvent` of sdk/sdk/ConnectMgr.cpp.
use https_tunnel_proxy.Base.{
  ℕ, ◌+◌, ◌≤◌, ◌≡◌, List, ◌∷◌, some, arith, length, take, drop, take-append, length-append,
  length-drop,
}
use https_tunnel_proxy.Tms.World.{set}
use https_tunnel_proxy.Sdk.World.{Connect, System, World, buff_size, received}
use https_tunnel_proxy.Sdk.Connection.{add_length, traffic_est}
use https_tunnel_proxy.Sdk.Stream.{fill}

-- What `recv` puts at the front of the buffer.
pub length-fill :
    (bs buf : List ℕ)
    → length bs ≤ buff_size
    → length buf ≡ buff_size
    → length (fill 0 bs buf) ≡ buff_size
length-fill bs buf h e =
    omega (arith, length-append bs (drop (0 + length bs) buf), length-drop (0 + length bs) buf)

pub take-fill : (bs buf : List ℕ) → take (length bs) (fill 0 bs buf) ≡ bs
take-fill bs buf = take-append bs (drop (0 + length bs) buf)

module _ (sys : System) where
  abbrev pub filled : List ℕ → Connect → Connect
  filled bs t = record t {
    r_buff = fill t.r_offset bs t.r_buff;
    http_transmit_len =
        add_length t.http_transmit_len (traffic_est sys.accurate (some (length bs)));
  }

  abbrev pub taken_in : ℕ → List ℕ → Connect → World → World
  taken_in p bs t w = record w {
    conns = set (set w.conns p (record t { r_buff = fill t.r_offset bs t.r_buff })) p (filled bs t);
    g_rpt_traff_cost = add_length w.g_rpt_traff_cost (traffic_est sys.accurate (some (length bs)));
    calls = received t.sock_fd bs ∷ w.calls;
  }
