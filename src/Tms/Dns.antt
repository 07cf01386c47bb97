-- ===== src/Tms/Dns.antt =====
-- `req_fill` and `res_parse` of tms/tms/DnsCache.cpp: the request for the address of a host, and what
-- is read of an answer.
pub mod Names
pub mod Answers
use Prim.Native.Nat.{bit_or, bit_xor}
use https_tunnel_proxy.Base.{
  ℕ, zero, suc, ◌+◌, ◌*◌, ◌/◌, ◌%◌, ◌^◌, not, List, [], ◌∷◌, ◌++◌, Option, none, some, length, take,
  drop, replicate, ltb, ◌==◌, if◌then◌else◌,
}
use https_tunnel_proxy.Wire.Bytes.{le, be16, from_be16, field}

-- One section of a host: its length in a byte, and its bytes.
unfoldable pub section : List ℕ → List ℕ
section s = (length s % 256) ∷ s

-- The loop over the host; `s` is the section so far.
unfoldable pub sections : List ℕ → List ℕ → List ℕ
unfolding section
sections s [] = section s
sections s (b ∷ bs) =
    let same = sections (s ++ b ∷ []) bs in if b == b'.' then section s ++ sections [] bs else same

-- `qid`, from the result of `random()`.
unfoldable pub query_id : ℕ → ℕ
query_id rv = bit_xor (rv / 2 ^ 16) (bit_or rv 65535) % 2 ^ 16

-- dns_hdr: the flags are two bytes, of which `rd` is the lowest bit of the first.
unfoldable pub dns_hdr : ℕ → ℕ → ℕ → ℕ → List ℕ
unfolding be16
dns_hdr qid flags qdcount ancount =
    le 2 qid ++ (le 2 flags ++ (be16 qdcount ++ (be16 ancount ++ replicate 4 0)))

-- What follows the name: its end, type A, class IN.
abbrev pub question_end : List ℕ
question_end = 0 ∷ 0 ∷ 1 ∷ 0 ∷ 1 ∷ []

-- `req_fill`: the bytes that it puts into the buffer.
unfoldable pub req_fill : ℕ → List ℕ → List ℕ
unfolding query_id dns_hdr sections
req_fill rv host = dns_hdr (query_id rv) 1 1 0 ++ (sections [] host ++ question_end)

pub record Rep : Type 0 where
  pub host : List ℕ
  pub ip : ℕ

-- `if (!s.empty()) s.append(1, '.')`
abbrev pub dotted : List ℕ → List ℕ
dotted [] = []
dotted (c ∷ s) = (c ∷ s) ++ b'.' ∷ []

-- The `do` loop that reads a name, and what is left behind it. `none`: it reads behind the buffer, or
-- is out of fuel.
unfoldable pub read_name : ℕ → List ℕ → List ℕ → Option (List ℕ × List ℕ)
read_name zero s bytes = none
read_name (suc fuel) s [] = none
read_name (suc fuel) s (n ∷ bytes) =
    let more = read_name fuel (dotted s ++ take n bytes) (drop n bytes) in
    if n == 0 then some (s, bytes) else if ltb (length bytes) n then none else more

abbrev add_rep : List ℕ → Option (List Rep × List ℕ) → Option (List Rep × List ℕ)
add_rep s none = none
add_rep s (some (rs, bytes)) = some (record { host = s; ip = 0 } ∷ rs, bytes)

-- The loop over the questions.
unfoldable pub read_questions : ℕ → List ℕ → Option (List Rep × List ℕ)
unfolding read_name
read_questions zero bytes = some ([], bytes)
read_questions (suc j) bytes = elim (read_name (suc (length bytes)) [] bytes) [
  | none ↦ none
  | some (s, rest) ↦ add_rep s (read_questions j (drop 4 rest))
]

-- `replys._r[0]._ip = ip`; without a first reply nothing is in the vector.
abbrev pub set_ip : List Rep → ℕ → List Rep
set_ip [] ip = []
set_ip (r ∷ rs) ip = record r { ip = ip } ∷ rs

-- sizeof(dns_ans_hdr)
abbrev pub dns_rhsize : ℕ
dns_rhsize = 12

abbrev pub net_2 : List ℕ → ℕ → ℕ
net_2 bytes i = from_be16 (field bytes i 1) (field bytes (i + 1) 1)

abbrev pub net_4 : List ℕ → ℕ
net_4 bytes = net_2 bytes 0 * 2 ^ 16 + net_2 bytes 2

-- The loop over the answers; `left` is `answers - k`. An answer of another type does not count.
unfoldable pub read_answers : ℕ → ℕ → List Rep → List ℕ → Option (List Rep)
read_answers zero left rs bytes = none
read_answers (suc fuel) zero rs bytes = some rs
read_answers (suc fuel) (suc left) rs bytes =
    let len = net_2 bytes 10 in
    let body = drop dns_rhsize bytes in
    let other = read_answers fuel (suc left) rs (drop len body) in
    let next = read_answers fuel left rs (drop len body) in
    if ltb (length bytes) dns_rhsize
    then none
    else if not (net_2 bytes 2 == 1)
    then other
    else if len == 4
    then (if ltb (length body) 4 then none else some (set_ip rs (net_4 body)))
    else next

abbrev answers_of : ℕ → ℕ → Option (List Rep × List ℕ) → Option (List Rep)
answers_of zero answers none = none
answers_of zero answers (some (rs, bytes)) = some rs
answers_of (suc questions) answers none = none
answers_of (suc questions) answers (some (rs, bytes)) =
    read_answers (suc (length bytes)) answers rs bytes

-- `res_parse` on what the buffer holds.
unfoldable pub res_parse : List ℕ → Option (List Rep)
unfolding read_questions read_answers
res_parse buff =
    let questions = net_2 buff 4 in
    answers_of questions (net_2 buff 6) (read_questions questions (drop 12 buff))
