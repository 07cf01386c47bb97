-- ===== src/Tms/Dns/Answers.antt =====
-- The records of an answer: tms/tms/DnsCache.cpp.
use https_tunnel_proxy.Base.{
  ℕ, zero, suc, ◌+◌, ◌*◌, ◌^◌, ◌≤◌, ◌<◌, ◌≡◌, ◌≢◌, refl, ap, ◌∙◌, List, [], ◌∷◌, ◌++◌, some, arith,
  length, drop, map, flatten, All, append_assoc, length-append, drop-append,
}
use https_tunnel_proxy.Wire.Bytes.{le, be16, from_be16, field, from_le}
use https_tunnel_proxy.Tms.Dns.{
  sections, query_id, req_fill, dns_hdr, question_end, Rep, set_ip, net_2, net_4, read_questions,
  read_answers, res_parse,
}
use https_tunnel_proxy.Tms.Dns.Names.{join, IsLabel, read_name-host}

-- A record of an answer, and its bytes. The name of its owner takes two bytes, as where it is a
-- pointer to the name in the question, and not the bytes of a whole name.
pub record Resource : Type 0 where
  pub name : ℕ
  pub kind : ℕ
  pub cls : ℕ
  pub ttl : ℕ
  pub body : List ℕ

pub record IsResource (r : Resource) : Type 0 where
  pub kind : r.kind < 2 ^ 16
  pub body : length r.body < 2 ^ 16

abbrev pub head_of : Resource → List ℕ
head_of r = le 2 r.name ++ (be16 r.kind ++ (be16 r.cls ++ (le 4 r.ttl ++ be16 (length r.body))))

abbrev pub bytes_of : Resource → List ℕ
bytes_of r = head_of r ++ r.body

kind_of : (r : Resource) (rest : List ℕ) → IsResource r → net_2 (head_of r ++ rest) 2 ≡ r.kind
unfolding le be16 from_be16 field from_le
kind_of r rest h = omega (arith, h.kind)

length_of :
    (r : Resource) (rest : List ℕ) → IsResource r → net_2 (head_of r ++ rest) 10 ≡ length r.body
unfolding le be16 from_be16 field from_le
length_of r rest h = omega (arith, h.body)

behind_head : (r : Resource) (rest : List ℕ) → drop 12 (head_of r ++ rest) ≡ rest
unfolding le be16
behind_head r rest = refl

length-head : (r : Resource) (rest : List ℕ) → 12 ≤ length (head_of r ++ rest)
unfolding le be16
length-head r rest = omega arith

-- A record that is no address is passed over, and does not count.
read_answers-other :
    (fuel left : ℕ) (rs : List Rep) (r : Resource) (rest : List ℕ)
    → IsResource r
    → r.kind ≢ 1
    → read_answers (suc fuel) (suc left) rs (bytes_of r ++ rest)
      ≡ read_answers fuel (suc left) rs rest
unfolding read_answers
read_answers-other fuel left rs r rest h n =
    rw
      (
        append_assoc (head_of r) r.body rest,
        kind_of r (r.body ++ rest) h,
        length_of r (r.body ++ rest) h,
        behind_head r (r.body ++ rest),
        drop-append r.body rest,
      )
      (ground (arith, length-head r (r.body ++ rest)))

-- An address of four bytes ends the reading.
read_answers-address :
    (fuel left : ℕ) (rs : List Rep) (r : Resource) (rest : List ℕ)
    → IsResource r
    → r.kind ≡ 1
    → length r.body ≡ 4
    → read_answers (suc fuel) (suc left) rs (bytes_of r ++ rest)
      ≡ some (set_ip rs (net_4 (r.body ++ rest)))
unfolding read_answers
read_answers-address fuel left rs r rest h e f =
    rw
      (
        append_assoc (head_of r) r.body rest,
        kind_of r (r.body ++ rest) h,
        length_of r (r.body ++ rest) h,
        behind_head r (r.body ++ rest),
      )
      (ground (arith, length-head r (r.body ++ rest), length-append r.body rest))

abbrev pub IsOther : Resource → Type 0
IsOther r = IsResource r × (r.kind ≢ 1)

read_answers-others :
    (fuel left : ℕ) (rs : List Rep) (others : List Resource) (r : Resource) (rest : List ℕ)
    → All IsOther others
    → IsResource r
    → r.kind ≡ 1
    → length r.body ≡ 4
    → length others < fuel
    → read_answers fuel (suc left) rs (flatten (map bytes_of others) ++ (bytes_of r ++ rest))
      ≡ some (set_ip rs (net_4 (r.body ++ rest)))
read_answers-others zero left rs others r rest a h e f g = absurd (omega arith)
read_answers-others (suc fuel) left rs [] r rest a h e f g =
    read_answers-address fuel left rs r rest h e f
read_answers-others (suc fuel) left rs (o ∷ others) r rest a h e f g =
    rw
      (
        append_assoc (bytes_of o) (flatten (map bytes_of others)) (bytes_of r ++ rest),
        read_answers-other fuel left rs o (flatten (map bytes_of others) ++ (bytes_of r ++ rest))
            a.0.0 a.0.1,
      )
      (read_answers-others fuel left rs others r rest a.1 h e f (omega arith))

length-others : (others : List Resource) → length others ≤ length (flatten (map bytes_of others))
unfolding le be16
length-others [] = omega arith
length-others (o ∷ others) =
    omega (arith, length-others others, length-append (bytes_of o) (flatten (map bytes_of others)))

-- The message that answers one question, for `host`, with these bytes as records.
abbrev pub answer_to : ℕ → ℕ → ℕ → List ℕ → List ℕ → List ℕ
answer_to qid flags ancount host records =
    dns_hdr qid flags 1 ancount ++ (sections [] host ++ (question_end ++ records))

abbrev pub address : List ℕ → ℕ
address (w ∷ x ∷ y ∷ z ∷ _) = w * 2 ^ 24 + x * 2 ^ 16 + y * 2 ^ 8 + z
address _ = 0

net_4-address :
    (w x y z : ℕ) (rest : List ℕ) → net_4 (w ∷ x ∷ y ∷ z ∷ rest) ≡ address (w ∷ x ∷ y ∷ z ∷ [])
unfolding from_be16 field from_le
net_4-address w x y z rest = omega arith

read_questions_one :
    (l : List ℕ) (ls : List (List ℕ)) (records : List ℕ)
    → All IsLabel (l ∷ ls)
    → read_questions 1 (sections [] (join (l ∷ ls)) ++ (question_end ++ records))
      ≡ some (record { host = join (l ∷ ls); ip = 0 } ∷ [], records)
unfolding read_questions
read_questions_one l ls records a =
    rw (read_name-host l ls (0 ∷ 1 ∷ 0 ∷ 1 ∷ records) a, read_questions)

read_answers-first :
    (left : ℕ) (rs : List Rep) (others : List Resource) (r : Resource) (w x y z : ℕ) (rest : List ℕ)
    → All IsOther others
    → r.kind ≡ 1
    → r.body ≡ w ∷ x ∷ y ∷ z ∷ []
    → read_answers
        (suc (length (flatten (map bytes_of others) ++ (bytes_of r ++ rest))))
        (suc left)
        rs
        (flatten (map bytes_of others) ++ (bytes_of r ++ rest))
      ≡ some (set_ip rs (address (w ∷ x ∷ y ∷ z ∷ [])))
read_answers-first left rs others r w x y z rest o k b =
    let four : length r.body ≡ 4 = ap length b in
    read_answers-others _ left rs others r rest o
      (record { kind = omega (arith, k); body = omega (arith, four) }) k four
      (omega (
        arith,
        length-others others,
        length-append (flatten (map bytes_of others)) (bytes_of r ++ rest),
      ))
    ∙ ap (λ bs. some (set_ip rs (net_4 (bs ++ rest)))) b
    ∙ ap (λ ip. some (set_ip rs ip)) (net_4-address w x y z rest)

questions_of : (qid flags n : ℕ) (bs : List ℕ) → net_2 (dns_hdr qid flags 1 n ++ bs) 4 ≡ 1
unfolding dns_hdr le be16 from_be16 field from_le
questions_of qid flags n bs = omega arith

count_of : (qid flags n : ℕ) (bs : List ℕ) → n < 2 ^ 16 → net_2 (dns_hdr qid flags 1 n ++ bs) 6 ≡ n
unfolding dns_hdr le be16 from_be16 field from_le
count_of qid flags n bs h = omega (arith, h)

behind_hdr : (qid flags n : ℕ) (bs : List ℕ) → drop 12 (dns_hdr qid flags 1 n ++ bs) ≡ bs
unfolding dns_hdr le be16
behind_hdr qid flags n bs = refl

-- An answer to one question, for a host with labels of 1 to 255 bytes, in which the owner's name of
-- each record takes two bytes, gives that host with the first address that its records hold. Records
-- of other types before it, such as aliases, are passed over; the reading stops at the address, so
-- that what follows it, of any form, does not matter. Conditions: the header announces from 1 to
-- 65535 records, the data of a record passed over has less than 2 ^ 16 bytes, and the first record of
-- type 1 has four bytes of data.
pub res_parse-answer_to :
    (qid flags ancount : ℕ) (l : List ℕ) (ls : List (List ℕ)) (others : List Resource)
    (r : Resource) (w x y z : ℕ) (rest : List ℕ)
    → All IsLabel (l ∷ ls)
    → All IsOther others
    → 0 < ancount
    → ancount < 2 ^ 16
    → r.kind ≡ 1
    → r.body ≡ w ∷ x ∷ y ∷ z ∷ []
    → res_parse (
        answer_to qid flags ancount
          (join (l ∷ ls))
          (flatten (map bytes_of others) ++ (bytes_of r ++ rest)))
      ≡ some (record { host = join (l ∷ ls); ip = address (w ∷ x ∷ y ∷ z ∷ []) } ∷ [])
unfolding res_parse
res_parse-answer_to qid flags zero l ls others r w x y z rest a o p h k b = absurd (omega arith)
res_parse-answer_to qid flags (suc n) l ls others r w x y z rest a o p h k b =
    let records = flatten (map bytes_of others) ++ (bytes_of r ++ rest) in
    let body = sections [] (join (l ∷ ls)) ++ (question_end ++ records) in
    rw
      (
        questions_of qid flags (suc n) body,
        count_of qid flags (suc n) body h,
        behind_hdr qid flags (suc n) body,
        read_questions_one l ls records a,
      )
      (read_answers-first n _ others r w x y z rest o k b)

-- A request names its host: read as an answer without records, it gives the host that it was filled
-- with, and no address. The labels of the host have 1 to 255 bytes.
pub res_parse-req_fill :
    (rv : ℕ) (l : List ℕ) (ls : List (List ℕ))
    → All IsLabel (l ∷ ls)
    → res_parse (req_fill rv (join (l ∷ ls))) ≡ some (record { host = join (l ∷ ls); ip = 0 } ∷ [])
unfolding res_parse req_fill read_answers
res_parse-req_fill rv l ls a =
    let body = sections [] (join (l ∷ ls)) ++ (question_end ++ []) in
    rw (
      questions_of (query_id rv) 1 0 body,
      count_of (query_id rv) 1 0 body (omega arith),
      behind_hdr (query_id rv) 1 0 body,
      read_questions_one l ls [] a,
    )
