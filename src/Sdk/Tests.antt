-- ===== src/Sdk/Tests.antt =====
-- Runs of the client library, sdk/sdk, on concrete input.
use https_tunnel_proxy.Base.{ℕ, zero, suc, ◌≡◌, refl, List, [], ◌∷◌, some, arith, Returns}
use https_tunnel_proxy.Sdk.Tls.{Memory, Vars, bytes_at, tls_parse_extension_host}
use https_tunnel_proxy.Sdk.Tls.Scan.{
  at, tls_parse_extension_host-Returns, tls_parse_extension_host_finds,
}

-- Bytes, and zeros behind them.
abbrev memory_of : List ℕ → ℕ → ℕ
memory_of [] i = 0
memory_of (b ∷ bs) zero = b
memory_of (b ∷ bs) (suc i) = memory_of bs i

-- A word that is not zero, the zero word, the length 2 and two bytes.
abbrev memory : Memory
memory = memory_of (1 ∷ 1 ∷ 0 ∷ 0 ∷ 0 ∷ 2 ∷ b'h' ∷ b'i' ∷ [])

abbrev vars : Vars
vars = record { type = 9; tlen = 0; host = [] }

tls_parse_extension_host-Returns_example :
    Returns (λ _. Unit) (tls_parse_extension_host 5 memory (at 0 8) vars)
tls_parse_extension_host-Returns_example = tls_parse_extension_host-Returns memory 4 0 vars

tls_parse_extension_host_finds_example :
    tls_parse_extension_host 2 memory (at 0 8) vars
    ≡ some (some (record { type = 0; tlen = 2; host = b'h' ∷ b'i' ∷ [] }))
unfolding bytes_at
tls_parse_extension_host_finds_example =
    tls_parse_extension_host_finds memory 1 0 2 vars
      (λ j l. let e : j ≡ 0 = omega arith in rw e (omega arith)) refl (omega arith)
