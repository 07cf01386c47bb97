-- ===== src/Sdk/Stream/Relay.antt =====
-- Downloads through the client, sdk/sdk/ConnectMgr.cpp: the rounds of `StreamRecvEvent` on a connection
-- that forwards, and `HandleEPOEvent` on the local program's.
pub mod Download
pub mod Flush
pub mod Run
pub mod Watched
use https_tunnel_proxy.Base.{
  ℕ, ◌+◌, ◌-◌, ◌≤◌, ◌<◌, ◌≡◌, ◌≢◌, zero, suc, refl, subst, sym, ap, ◌∙◌, List, [], ◌∷◌, ◌++◌,
  Option, none, some, arith, length, take, drop, append-nil, Returns, ◌==◌, if◌then◌else◌, ==_refl,
}
use https_tunnel_proxy.Tms.World.{set, s_forward, sta_hangup}
use https_tunnel_proxy.Sdk.World.{Connect, Node, World, Call, buff_size, t_proxy, wrote, received}
use https_tunnel_proxy.Sdk.Stream.{taken, held}

-- The bytes that a socket has taken.
unfoldable pub sent : ℕ → List Call → List ℕ
sent fd [] = []
sent fd (wrote s bs n ∷ cs) =
    let before = sent fd cs in if s == fd then before ++ take (taken n) bs else before
sent fd (c ∷ cs) = sent fd cs

-- The bytes that have been received from a socket.
unfoldable pub got : ℕ → List Call → List ℕ
got fd [] = []
got fd (received s bs ∷ cs) = let before = got fd cs in if s == fd then before ++ bs else before
got fd (c ∷ cs) = got fd cs

-- Both ends of a download, with their descriptors, the local program's connection, and the nodes of
-- the recycler.
pub record Ends : Type 0 where
  pub tunnel : ℕ
  pub tunnel_fd : ℕ
  pub proxy : ℕ
  pub proxy_fd : ℕ
  pub program : Connect
  pub nodes : List Node

-- The tunnel forwards; it keeps something as long as it is hung up.
pub record IsTunnel (k : Ends) (t : Connect) : Type 0 where
  pub forwards : t.cstate ≡ s_forward
  pub kind : t.type ≢ t_proxy
  pub pair : t.peer ≡ some k.proxy
  pub fd : t.sock_fd ≡ k.tunnel_fd
  pub size : length t.r_buff ≡ buff_size
  pub keeps : t.status ≡ sta_hangup → (0 < t.r_data_len) × (t.r_offset + t.r_data_len ≤ buff_size)
  pub starts : t.status ≢ sta_hangup → t.r_offset ≡ 0

pub record IsProxy (k : Ends) (c : Connect) : Type 0 where
  pub pair : c.peer ≡ some k.tunnel
  pub fd : c.sock_fd ≡ k.proxy_fd
  pub type : c.type ≡ t_proxy
  pub same : c ≡ k.program

abbrev pub pending : Connect → List ℕ
pending t = if t.status == sta_hangup then held t else []

-- What the local program got, with what the tunnel keeps, is `s`, and what the tunnel got is `y`.
pub record IsRelaying (k : Ends) (s y : List ℕ) (w : World) : Type 0 where
  pub apart : k.tunnel ≢ k.proxy
  pub entry : w.conn_map k.proxy_fd ≡ some (some k.proxy)
  pub passage : w.conn_map k.tunnel_fd ≡ some (some k.tunnel)
  pub nodes : w.expire_list ≡ k.nodes
  pub arrived : got k.tunnel_fd w.calls ≡ y
  pub local : Returns (IsProxy k) (w.conns k.proxy)
  pub remote :
      Returns (λ t. IsTunnel k t × (sent k.proxy_fd w.calls ++ pending t ≡ s)) (w.conns k.tunnel)

take-nil : (n : ℕ) → take {A = ℕ} n [] ≡ []
take-nil zero = refl
take-nil (suc n) = refl

pub take-take :
    (k m : ℕ) (xs : List ℕ) → k ≤ m → take k (take m xs) ++ take (m - k) (drop k xs) ≡ take m xs
take-take zero m xs h = let e : m - 0 ≡ m = omega arith in rw e
take-take (suc k) zero xs h = absurd (omega arith)
take-take (suc k) (suc m) [] h = take-nil (suc m - suc k)
take-take (suc k) (suc m) (x ∷ xs) h =
    let e : suc m - suc k ≡ m - k = omega arith in
    rw e (ap (◌∷◌ x) (take-take k m xs (omega arith)))

pub take-drop : (k m : ℕ) (xs : List ℕ) → k ≤ m → take (m - k) (drop k xs) ≡ drop k (take m xs)
take-drop zero m xs h = let e : m - 0 ≡ m = omega arith in rw e
take-drop (suc k) zero xs h = absurd (omega arith)
take-drop (suc k) (suc m) [] h = take-nil (suc m - suc k)
take-drop (suc k) (suc m) (x ∷ xs) h =
    let e : suc m - suc k ≡ m - k = omega arith in rw e (take-drop k m xs (omega arith))

-- Where the tunnel is, and what the local program got is known.
pub remote_at :
    (k : Ends) (s y : List ℕ) (t : Connect) (w : World)
    → w.conns k.tunnel ≡ some t
    → IsRelaying k s y w
    → IsTunnel k t × (sent k.proxy_fd w.calls ++ pending t ≡ s)
remote_at k s y t w e r = subst (Returns _) e r.remote

-- A tunnel that is not hung up keeps nothing.
pub sent-append :
    (k : Ends) (s bs : List ℕ) (t : Connect) (w : World) (cs : List Call)
    → t.status ≢ sta_hangup
    → sent k.proxy_fd cs ≡ sent k.proxy_fd w.calls ++ bs
    → sent k.proxy_fd w.calls ++ pending t ≡ s
    → sent k.proxy_fd cs ≡ s ++ bs
sent-append k s bs t w cs f g a =
    let p : pending t ≡ [] = ground arith in
    g ∙ ap (λ y. y ++ bs) (sym (append-nil _) ∙ sym (ap (◌++◌ (sent k.proxy_fd w.calls)) p) ∙ a)

-- The tunnel and the calls after a change.
unfoldable pub changed : Ends → Connect → List Call → World → World
changed k t cs w = record w { conns = set w.conns k.tunnel t; calls = cs }

pub changed-IsRelaying :
    (k : Ends) (s s' y : List ℕ) (t : Connect) (w : World) (cs : List Call)
    → IsTunnel k t
    → sent k.proxy_fd cs ++ pending t ≡ s'
    → got k.tunnel_fd cs ≡ got k.tunnel_fd w.calls
    → IsRelaying k s y w
    → IsRelaying k s' y (changed k t cs w)
unfolding changed
changed-IsRelaying k s s' y t w cs a b v r = record {
  apart = r.apart;
  entry = r.entry;
  passage = r.passage;
  nodes = r.nodes;
  arrived = v ∙ r.arrived;
  local = ground (arith, r.apart, r.local);
  remote = rw (==_refl k.tunnel) (a, b);
}

pub taken_le : (o : Option ℕ) (n : ℕ) → ((m : ℕ) → o ≡ some m → m ≤ n) → taken o ≤ n
taken_le none n h = omega arith
taken_le (some m) n h = h m refl
