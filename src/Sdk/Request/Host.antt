-- ===== src/Sdk/Request/Host.antt =====
-- Where the host of a request is looked for, as `HandleProxyProtocol` of sdk/sdk/ConnectMgr.cpp reads them.
use https_tunnel_proxy.Base.{ℕ, ◌≡◌, false, List, [], ◌∷◌, ◌++◌}
use https_tunnel_proxy.Sdk.Request.{starts_with, word_host}

-- The word begins nowhere in the first part of a text.
abbrev pub IsFree : List ℕ → List ℕ → Type 0
IsFree [] s = Unit
IsFree (b ∷ pre) s = (starts_with word_host (b ∷ pre ++ s) ≡ false) × IsFree pre s
