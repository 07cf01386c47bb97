-- ===== src/Sdk/Request.antt =====
-- The web server that a local program asks for: the parsing in `HandleProxyProtocol` of
-- sdk/sdk/ConnectMgr.cpp. A text is what lies from its start to the end of `r_buff`; behind the buffer
-- lies a member that is zero. `none` is a read through a null pointer, or a copy behind an array.
pub mod Connect
pub mod Host
use https_tunnel_proxy.Base.{
  ℕ, zero, suc, ◌+◌, ◌%◌, ◌^◌, Bool, true, false, ◌&&◌, ◌||◌, List, [], ◌∷◌, Option, none, some,
  length, drop, ltb, leb, ◌==◌, if◌then◌else◌,
}
use https_tunnel_proxy.Base.Decimal.{is_digit, atoi_from}

abbrev pub cr : ℕ
cr = 13

abbrev pub lf : ℕ
lf = 10

abbrev pub space : ℕ
space = 32

abbrev pub to_lower : ℕ → ℕ
to_lower b = if leb b'A' b && leb b b'Z' then b + 32 else b

-- `0 == strncasecmp(word, s, strlen(word))`, for a word in lower case without a zero.
unfoldable pub starts_with : List ℕ → List ℕ → Bool
starts_with [] s = true
starts_with (w ∷ ws) [] = false
starts_with (w ∷ ws) (b ∷ s) = (w == to_lower b) && starts_with ws s

-- `strchr(s, c)`, as the text before it.
unfoldable pub strchr : List ℕ → ℕ → Option (List ℕ)
strchr [] c = none
strchr (b ∷ s) c =
    let rest = strchr s c in
    if b == c
    then some []
    else if b == 0
    then none
    else elim rest [ none ↦ none | some t ↦ some (b ∷ t) ]

-- `strstr(s, "\r\n")`, as the text before it.
unfoldable pub strstr_crlf : List ℕ → Option (List ℕ)
strstr_crlf [] = none
strstr_crlf (b ∷ []) = none
strstr_crlf (b ∷ c ∷ s) =
    let rest = strstr_crlf (c ∷ s) in
    if (b == cr) && (c == lf)
    then some []
    else if b == 0
    then none
    else elim rest [ none ↦ none | some t ↦ some (b ∷ t) ]

-- `strtok`: the separators at the front are skipped; the token ends at a separator, which is skipped too.
abbrev pub is_one_of : List ℕ → ℕ → Bool
is_one_of [] b = false
is_one_of (d ∷ ds) b = (d == b) || is_one_of ds b

unfoldable pub token_of : List ℕ → List ℕ → List ℕ × List ℕ
token_of ds [] = ([], [])
token_of ds (b ∷ s) =
    let rest = token_of ds s in if is_one_of ds b then ([], s) else (b ∷ rest.0, rest.1)

unfoldable pub strtok : List ℕ → List ℕ → Option (List ℕ × List ℕ)
unfolding token_of
strtok ds [] = none
strtok ds (b ∷ s) =
    let rest = strtok ds s in if is_one_of ds b then rest else some (token_of ds (b ∷ s))

-- The text up to its first zero.
unfoldable pub before_zero : List ℕ → List ℕ
before_zero [] = []
before_zero (b ∷ s) = let rest = before_zero s in if b == 0 then [] else b ∷ rest

abbrev pub word_connect : List ℕ
word_connect = b'c' ∷ b'o' ∷ b'n' ∷ b'n' ∷ b'e' ∷ b'c' ∷ b't' ∷ []

-- "host: ", of which the code compares the first byte by itself.
abbrev pub word_host : List ℕ
word_host = b'h' ∷ b'o' ∷ b's' ∷ b't' ∷ b':' ∷ space ∷ []

-- What the request says: the host, and the port if it says one.
pub record Target : Type 0 where
  pub host : List ℕ
  pub port : Option ℕ

-- How the part for CONNECT ends: the method returns -1, or it has a host.
pub data Parsed : Type 0 where
  too_long : Parsed
  asks : Target → Parsed

-- The part for a line that begins with CONNECT, from behind the word and one byte. A missing `\r`
-- leaves a null pointer; `connect_val_buff` has 256 bytes and takes a zero behind the text.
unfoldable pub parse_connect : List ℕ → Option Parsed
unfolding strchr strtok atoi_from
parse_connect s = elim (strchr s cr) [
  | none ↦ none
  | some line ↦
      if ltb 256 (length line)
      then some too_long
      else if length line == 256
      then none
      else elim (strtok (b':' ∷ []) line) [
        | none ↦ none
        | some (h, s') ↦ elim (strtok (cr ∷ lf ∷ space ∷ []) s') [
          | none ↦ none
          | some (p, s'') ↦ some (
              asks (record {
                host = h;
                port = elim p [
                  | [] ↦ none
                  | b ∷ bs ↦ if is_digit b then some (atoi_from 0 (b ∷ bs) % 2 ^ 16) else none
                ];
              }))
        ]
      ]
]

-- A text behind "Host: " that ends at a `\r\n`, which begins within the `n` bytes that follow.
unfoldable pub host_here : ℕ → List ℕ → Option (List ℕ)
unfolding starts_with strstr_crlf
host_here n s =
    if starts_with word_host s
    then elim (strstr_crlf (drop 6 s)) [
      | none ↦ none
      | some t ↦ if ltb (length t + 5) n then some t else none
    ]
    else none

-- The loop for the header Host: `n` bytes of the request are left, and the first `k` are skipped.
unfoldable pub find_host : ℕ → ℕ → List ℕ → Option (List ℕ)
unfolding host_here
find_host zero k s = none
find_host (suc n) k [] = none
find_host (suc n) (suc k) (b ∷ s) = find_host n k s
find_host (suc n) zero (b ∷ s) = elim (host_here n (b ∷ s)) [
  | some t ↦ some t
  | none ↦ find_host n (if starts_with word_host (b ∷ s) then 6 else 0) s
]
