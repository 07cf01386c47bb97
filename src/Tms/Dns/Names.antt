-- ===== src/Tms/Dns/Names.antt =====
-- Hosts in requests and answers: tms/tms/DnsCache.cpp.
use https_tunnel_proxy.Base.{
  ℕ, zero, suc, ◌%◌, ◌≤◌, ◌<◌, ◌≡◌, ◌≢◌, refl, ap, ◌∙◌, List, [], ◌∷◌, ◌++◌, some, arith, length,
  map, flatten, All, append_assoc, append-nil, length-append, take-append, drop-append,
}
use https_tunnel_proxy.Tms.Dns.{section, sections, dotted, read_name}

-- The host with these labels.
abbrev pub join : List (List ℕ) → List ℕ
join [] = []
join (l ∷ []) = l
join (l ∷ m ∷ ls) = l ++ (b'.' ∷ join (m ∷ ls))

-- A part of a host between dots: 1 to 255 bytes.
pub record IsLabel (l : List ℕ) : Type 0 where
  pub filled : 0 < length l
  pub short : length l < 256
  pub plain : All (λ b. b ≢ b'.') l

sections-plain :
    (s l bs : List ℕ) → All (λ b. b ≢ b'.') l → sections s (l ++ bs) ≡ sections (s ++ l) bs
unfolding sections
sections-plain s [] bs a = rw append-nil
sections-plain s (b ∷ l) bs a =
    ground (arith, sections-plain (s ++ b ∷ []) l bs a.1, append_assoc s (b ∷ []) l)

sections-dot : (s bs : List ℕ) → sections s (b'.' ∷ bs) ≡ section s ++ sections [] bs
unfolding sections
sections-dot s bs = refl

-- A request holds one section for each label.
pub sections-join :
    (l : List ℕ) (ls : List (List ℕ))
    → All IsLabel (l ∷ ls)
    → sections [] (join (l ∷ ls)) ≡ flatten (map section (l ∷ ls))
unfolding sections section
sections-join l [] a = rw append-nil (rw append-nil at (sections-plain [] l [] a.0.plain))
sections-join l (m ∷ ls) a =
    sections-plain [] l (b'.' ∷ join (m ∷ ls)) a.0.plain
    ∙ sections-dot l (join (m ∷ ls))
    ∙ ap (λ bs. section l ++ bs) (sections-join m ls a.1)

-- A name with the labels `ls` behind it.
abbrev extended : List ℕ → List (List ℕ) → List ℕ
extended s [] = s
extended s (l ∷ ls) = extended (dotted s ++ l) ls

join-behind : (p m : List ℕ) (ls : List (List ℕ)) → join ((p ++ m) ∷ ls) ≡ p ++ join (m ∷ ls)
join-behind p m [] = refl
join-behind p m (k ∷ ls) = append_assoc p m (b'.' ∷ join (k ∷ ls))

extended-join :
    (s : List ℕ) (ls : List (List ℕ))
    → 0 < length s
    → All IsLabel ls
    → extended s ls ≡ join (s ∷ ls)
extended-join s [] h a = refl
extended-join [] (l ∷ ls) h a = absurd (omega arith)
extended-join (c ∷ s) (l ∷ ls) h a =
    extended-join (dotted (c ∷ s) ++ l) ls (omega arith) a.1
    ∙ join-behind (dotted (c ∷ s)) l ls
    ∙ append_assoc (c ∷ s) (b'.' ∷ []) (join (l ∷ ls))

read_name-section :
    (fuel : ℕ) (s l rest : List ℕ)
    → IsLabel l
    → read_name (suc fuel) s (section l ++ rest) ≡ read_name fuel (dotted s ++ l) rest
unfolding read_name section
read_name-section fuel s l rest a =
    let e : length l % 256 ≡ length l = omega (arith, a.short) in
    rw (e, take-append l rest, drop-append l rest) (ground (arith, length-append l rest, a.filled))

-- Sections are read one by one up to the zero byte, with fuel for each and one more.
read_name-sections :
    (fuel : ℕ) (s rest : List ℕ) (ls : List (List ℕ))
    → All IsLabel ls
    → length ls < fuel
    → read_name fuel s (flatten (map section ls) ++ (0 ∷ rest)) ≡ some (extended s ls, rest)
unfolding read_name
read_name-sections zero s rest ls a h = absurd (omega arith)
read_name-sections (suc fuel) s rest [] a h = refl
read_name-sections (suc fuel) s rest (l ∷ ls) a h =
    rw
      (
        append_assoc (section l) (flatten (map section ls)) (0 ∷ rest),
        read_name-section fuel s l (flatten (map section ls) ++ (0 ∷ rest)) a.0,
      )
      (read_name-sections fuel (dotted s ++ l) rest ls a.1 (omega arith))

length-sections : (ls : List (List ℕ)) → length ls ≤ length (flatten (map section ls))
unfolding section
length-sections [] = omega arith
length-sections (l ∷ ls) =
    omega (arith, length-sections ls, length-append (section l) (flatten (map section ls)))

-- A host that is not empty, whose labels have 1 to 255 bytes, is read as it was written, and what
-- follows is left; the fuel that the length of the message gives is enough.
pub read_name-host :
    (l : List ℕ) (ls : List (List ℕ)) (rest : List ℕ)
    → All IsLabel (l ∷ ls)
    → read_name
        (suc (length (sections [] (join (l ∷ ls)) ++ (0 ∷ rest))))
        []
        (sections [] (join (l ∷ ls)) ++ (0 ∷ rest))
      ≡ some (join (l ∷ ls), rest)
read_name-host l ls rest a =
    rw (sections-join l ls a, ← extended-join l ls a.0.filled a.1)
      (read_name-sections _ [] rest (l ∷ ls) a (
        omega (
          arith,
          length-sections (l ∷ ls),
          length-append (flatten (map section (l ∷ ls))) (0 ∷ rest),
        )))
