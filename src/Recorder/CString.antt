-- ===== src/Recorder/CString.antt =====
-- `strlen` and `memcmp`, as trafficRecorder/trafficRecorder/TRNet.cpp uses them on tokens.
use https_tunnel_proxy.Base.{
  ℕ, zero, suc, ◌≤◌, ◌≡◌, ◌≢◌, refl, ap, Bool, true, ◌&&◌, List, [], ◌∷◌, arith, length, ltb, ◌==◌,
  if◌then◌else◌, All, Bool-cases, inl, inr, ◌↔◌,
}

-- The bytes before the first zero.
unfoldable pub c_string : List ℕ → List ℕ
c_string [] = []
c_string (b ∷ bs) = let rest = c_string bs in if b == 0 then [] else b ∷ rest

unfoldable pub strlen : List ℕ → ℕ
strlen bs = length (c_string bs)

-- The byte at the front; a byte that is not there is a zero, as behind the end of a string.
abbrev pub front : List ℕ → ℕ
front [] = 0
front (b ∷ bs) = b

abbrev pub behind : List ℕ → List ℕ
behind [] = []
behind (b ∷ bs) = bs

-- `0 == memcmp(a, b, n)`
unfoldable pub memcmp_eq : ℕ → List ℕ → List ℕ → Bool
memcmp_eq zero a b = true
memcmp_eq (suc n) a b = (front a == front b) && memcmp_eq n (behind a) (behind b)

abbrev pub max : ℕ → ℕ → ℕ
max a b = if ltb b a then a else b

memcmp_eq_sound :
    (n : ℕ) (a s : List ℕ)
    → All (λ b. b ≢ 0) s
    → strlen a ≤ n
    → length s ≤ n
    → memcmp_eq n a s ≡ true
    → c_string a ≡ s
unfolding memcmp_eq strlen c_string
memcmp_eq_sound zero [] [] z p q e = refl
memcmp_eq_sound zero (x ∷ a) [] z p q e = ground arith
memcmp_eq_sound zero a (b ∷ s) z p q e = absurd (omega arith)
memcmp_eq_sound (suc n) [] [] z p q e = refl
memcmp_eq_sound (suc n) [] (b ∷ s) z p q e = absurd (z.0 (ground arith))
memcmp_eq_sound (suc n) (x ∷ a) [] z p q e = ground arith
memcmp_eq_sound (suc n) (x ∷ a) (b ∷ s) z p q e = elim (Bool-cases (x == 0)) [
  | inl t ↦ absurd (z.0 (ground arith))
  | inr f ↦ ground (arith, memcmp_eq_sound n a s z.1)
]

memcmp_eq_complete :
    (n : ℕ) (a s : List ℕ) → length s ≤ n → n ≤ strlen a → c_string a ≡ s → memcmp_eq n a s ≡ true
unfolding memcmp_eq strlen c_string
memcmp_eq_complete zero a s p q e = refl
memcmp_eq_complete (suc n) [] s p q e = absurd (omega arith)
memcmp_eq_complete (suc n) (x ∷ a) [] p q e = ground arith
memcmp_eq_complete (suc n) (x ∷ a) (b ∷ s) p q e = elim (Bool-cases (x == 0)) [
  | inl t ↦ ground arith
  | inr f ↦ ground (arith, memcmp_eq_complete n a s)
]

-- Comparing as many bytes as the longer of the two has tells whether they are the same string, where
-- one is read up to its first zero and the other has no zero.
pub memcmp_eq_iff :
    (a s : List ℕ)
    → All (λ b. b ≢ 0) s
    → (memcmp_eq (max (length s) (strlen a)) a s ≡ true) ↔ (c_string a ≡ s)
memcmp_eq_iff a s z = (
  λ e. memcmp_eq_sound (max (length s) (strlen a)) a s z (ground arith) (ground arith) e,
  λ e.
      memcmp_eq_complete (max (length s) (strlen a)) a s (ground arith)
        (let l : strlen a ≡ length s = (unfold strlen in ap length e) in ground (arith, l)) e,
)
