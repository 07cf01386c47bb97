-- ===== src/Wire/Bytes.antt =====
-- Integer fields of the packed structs of tms/tms/TMSMessage.h, as the little-endian hosts store
-- them, and the header whose length is in network order.
use native.Mathlib.Nat.{pow-suc}
use https_tunnel_proxy.Base.{
  ℕ, zero, suc, ◌+◌, ◌*◌, ◌/◌, ◌%◌, ◌^◌, ◌<◌, ◌≡◌, refl, ap, List, [], ◌∷◌, ◌++◌, arith, length,
  take, drop,
}

-- The `k` bytes of `x`, lowest first; higher bytes are cut off.
unfoldable pub le : ℕ → ℕ → List ℕ
le zero x = []
le (suc k) x = x % 256 ∷ le k (x / 256)

unfoldable pub from_le : List ℕ → ℕ
from_le [] = 0
from_le (b ∷ bs) = b + 256 * from_le bs

-- A field of `k` bytes at offset `off`.
unfoldable pub field : List ℕ → ℕ → ℕ → ℕ
field bs off k = from_le (take k (drop off bs))

pub length-le : (k x : ℕ) → length (le k x) ≡ k
unfolding le
length-le zero x = refl
length-le (suc k) x = ap suc (length-le k (x / 256))

-- Writing and reading back keeps every value that fits.
pub from_le-le : (k x : ℕ) → x < 256 ^ k → from_le (le k x) ≡ x
unfolding le from_le
from_le-le zero x h = omega arith
from_le-le (suc k) x h =
    omega (arith, from_le-le k (x / 256) (omega (arith, pow-suc 256 k)), pow-suc 256 k)

-- htons on a 16-bit value: the bytes of the length field, high byte first.
unfoldable pub be16 : ℕ → List ℕ
be16 n = (n / 256) % 256 ∷ n % 256 ∷ []

-- ntohs of the two bytes.
unfoldable pub from_be16 : ℕ → ℕ → ℕ
from_be16 hi lo = 256 * hi + lo

abbrev pub validater0 : ℕ
validater0 = 0x86

abbrev pub validater1 : ℕ
validater1 = 0x68

abbrev pub header_size : ℕ
header_size = 6

-- `hdr_t` of a message of `n` bytes: the two marks, the length and `cid`, which is never set.
unfoldable pub header : ℕ → List ℕ
unfolding be16
header n = validater0 ∷ validater1 ∷ (be16 n ++ 0 ∷ 0 ∷ [])

-- What `SendTmsMsg` hands to `send`.
unfoldable pub frame : List ℕ → List ℕ
unfolding header
frame msg = header (length msg) ++ msg
