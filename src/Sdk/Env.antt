-- ===== src/Sdk/Env.antt =====
-- The library's settings: `YMESet`, `YMEGet` and `YMERptTraffCost` of sdk/sdk/SdkEnv.cpp. A key is a text
-- without a zero; behind its end a zero is read.
pub mod Settings
use https_tunnel_proxy.Base.{
  ℕ, ◌+◌, ◌-◌, ◌%◌, ◌^◌, min, Bool, true, false, ◌&&◌, ◌||◌, List, [], ◌∷◌, Option, none, some, leb,
  ◌==◌, if◌then◌else◌,
}
use https_tunnel_proxy.Base.Decimal.{atoi_from, decimal}
use https_tunnel_proxy.Sdk.World.{Env, World}
use https_tunnel_proxy.Sdk.Request.{starts_with}

-- `0 == strncmp(s, word, strlen(word))`
unfoldable pub begins_with : List ℕ → List ℕ → Bool
begins_with [] s = true
begins_with (w ∷ ws) [] = false
begins_with (w ∷ ws) (b ∷ s) = (w == b) && begins_with ws s

-- `key[0]`, in either case.
abbrev pub first_is : ℕ → List ℕ → Bool
first_is c [] = false
first_is c (b ∷ s) = (b == c) || (b + 32 == c)

abbrev pub tail : List ℕ → List ℕ
tail [] = []
tail (b ∷ s) = s

abbrev is_space : ℕ → Bool
is_space b = (b == 32) || (leb 9 b && leb b 13)

-- `atoll`, as a U64: spaces, a sign, digits; a number that is too large is the last `long long`.
abbrev magnitude : List ℕ → ℕ
magnitude s = min (atoi_from 0 s) (2 ^ 63 - 1)

unfoldable pub atoll : List ℕ → ℕ
unfolding atoi_from
atoll [] = 0
atoll (b ∷ s) =
    let rest = atoll s in
    if is_space b
    then rest
    else if b == b'-'
    then (2 ^ 64 - min (atoi_from 0 s) (2 ^ 63)) % 2 ^ 64
    else if b == b'+'
    then magnitude s
    else magnitude (b ∷ s)

abbrev pub word_hone : List ℕ
word_hone = b'h' ∷ b'o' ∷ b'n' ∷ b'e' ∷ []

abbrev pub word_ppid : List ℕ
word_ppid = b'p' ∷ b'p' ∷ b'i' ∷ b'd' ∷ []

abbrev pub word_uth : List ℕ
word_uth = b'u' ∷ b't' ∷ b'h' ∷ []

abbrev pub word_rror : List ℕ
word_rror = b'r' ∷ b'r' ∷ b'o' ∷ b'r' ∷ []

abbrev pub word_msip : List ℕ
word_msip = b'm' ∷ b's' ∷ b'i' ∷ b'p' ∷ []

abbrev pub word_msport : List ℕ
word_msport = b'm' ∷ b's' ∷ b'p' ∷ b'o' ∷ b'r' ∷ b't' ∷ []

abbrev pub word_raffic : List ℕ
word_raffic = b'r' ∷ b'a' ∷ b'f' ∷ b'f' ∷ b'i' ∷ b'c' ∷ []

-- `YMESet`: `none` is -1.
unfoldable pub yme_set : List ℕ → List ℕ → Env → Option Env
unfolding begins_with starts_with atoll
yme_set k v e =
    if first_is b'p' k && begins_with word_hone (tail k)
    then some (record e { g_phone = atoll v })
    else if first_is b'a' k && begins_with word_ppid (tail k)
    then some (record e { g_appid = atoll v })
    else if first_is b'a' k && begins_with word_uth (tail k)
    then some (record e { g_auth = v })
    else if first_is b'e' k && begins_with word_rror (tail k)
    then some (record e { g_error = v })
    else if first_is b't' k && starts_with word_msip (tail k)
    then some (record e { g_tmsip = v })
    else if first_is b't' k && starts_with word_msport (tail k)
    then some (record e { g_tmsport = atoll v })
    else none

-- What `YMEGet` returns: a null pointer, a text, or nothing because `sz_tmsport` has no room for it.
pub data Answer : Type 0 where
  null overflow : Answer
  text : List ℕ → Answer

-- `YMEGet`
unfoldable pub yme_get : List ℕ → Env → Answer
unfolding begins_with starts_with decimal
yme_get k e =
    if first_is b't' k && starts_with word_raffic (tail k)
    then text (decimal e.g_aval_traffic)
    else if first_is b'a' k && starts_with word_uth (tail k)
    then text e.g_auth
    else if first_is b'a' k && starts_with word_ppid (tail k)
    then text (decimal e.g_appid)
    else if first_is b'e' k && starts_with word_rror (tail k)
    then text e.g_error
    else if first_is b'p' k && starts_with word_hone (tail k)
    then text (decimal e.g_phone)
    else if first_is b't' k && begins_with word_msip (tail k)
    then text e.g_tmsip
    else if first_is b't' k && begins_with word_msport (tail k)
    then (if leb (10 ^ 7) e.g_tmsport then overflow else text (decimal e.g_tmsport))
    else null

-- `YMERptTraffCost`
unfoldable pub yme_rpt_traff_cost : World → ℕ × World
yme_rpt_traff_cost w = (w.g_rpt_traff_cost, record w { g_rpt_traff_cost = 0 })
