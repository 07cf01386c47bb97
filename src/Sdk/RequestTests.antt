-- ===== src/Sdk/RequestTests.antt =====
-- Requests and settings of the client library on concrete input.
use https_tunnel_proxy.Base.{ℕ, ◌≡◌, List, [], ◌∷◌, ◌++◌, some, arith}
use https_tunnel_proxy.Base.Decimal.{decimal}
use https_tunnel_proxy.Sdk.Request.{cr, lf, asks, parse_connect}
use https_tunnel_proxy.Sdk.Request.Connect.{connect_line, parse_connect-connect_line}

-- "a.b:443 H"
parse_connect-connect_line_example :
    parse_connect (connect_line (b'a' ∷ b'.' ∷ b'b' ∷ []) (decimal 443) (b'H' ∷ []) ++ cr ∷ lf ∷ [])
    ≡ some (asks (record { host = b'a' ∷ b'.' ∷ b'b' ∷ []; port = some 443 }))
unfolding decimal
parse_connect-connect_line_example =
    parse_connect-connect_line b'a' 443 (b'.' ∷ b'b' ∷ []) (b'H' ∷ []) (lf ∷ [])
      (
        ((omega arith, omega arith), omega arith),
        (
          ((omega arith, omega arith), omega arith),
          (((omega arith, omega arith), omega arith), tt),
        ),
      )
      (omega arith) ((omega arith, omega arith), tt) (omega arith)

abbrev forwarded : List ℕ
forwarded = b'X' ∷ b'-' ∷ b'F' ∷ b'o' ∷ b'r' ∷ b'w' ∷ b'a' ∷ b'r' ∷ b'd' ∷ b'e' ∷ b'd' ∷ b'-' ∷ []

abbrev own_host : List ℕ
own_host = b'H' ∷ b'o' ∷ b's' ∷ b't' ∷ b':' ∷ 32 ∷ b'y' ∷ cr ∷ lf ∷ []
