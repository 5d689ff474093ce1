-- ===== src/Gateway/Multibase/Alphabet.antt =====
-- The alphabet is a bijection between the digits below 58 and its characters.
use olane.Common.{
  ℕ, zero, suc, ◌+◌, ◌<◌, ◌≡◌, refl, Bool, true, false, ◌&&◌, [], ◌∷◌, Option, none, some, arith,
  ◌==◌, &&-true, length, Bool-cases, inl, inr, Text,
}
use olane.Gateway.Multibase.{alphabet, char_at, index_from, index}

-- Every digit below `n` has a character, which is found at that digit.
agrees : ℕ → Option ℕ → Bool
agrees d none = false
agrees d (some e) = d == e

table : ℕ → Bool
unfolding agrees
table zero = true
table (suc n) = let rest = table n in agrees n (index (char_at alphabet n)) && rest

agrees_sound : (d : ℕ) (o : Option ℕ) → agrees d o ≡ true → o ≡ some d
unfolding agrees
agrees_sound d none h = absurd (cc)
agrees_sound d (some e) h = ground arith

table_sound : (n d : ℕ) → table n ≡ true → d < n → index (char_at alphabet d) ≡ some d
unfolding table
table_sound zero d h lt = absurd (omega arith)
table_sound (suc n) d h lt =
    let (here, later) = &&-true (agrees n (index (char_at alphabet n))) (table n) h in
    elim (Bool-cases (d == n)) [
      | inl e ↦ let same : d ≡ n = ground arith in rw same (agrees_sound n _ here)
      | inr e ↦ table_sound n d later (ground arith)
    ]

table_58 : table 58 ≡ true
unfolding table index char_at
table_58 = refl

pub index-char_at : (d : ℕ) → d < 58 → index (char_at alphabet d) ≡ some d
index-char_at d h = table_sound 58 d table_58 h

index_from-bounds :
    (i : ℕ) (s : Text) (ch d : ℕ)
    → index_from i s ch ≡ some d
    → (k : ℕ) × (d ≡ i + k) × (k < length s) × (char_at s k ≡ ch)
unfolding index_from char_at
index_from-bounds i [] ch d h = absurd (cc)
index_from-bounds i (c ∷ s) ch d h = elim (Bool-cases (c == ch)) [
  | inl e ↦ (0, ground arith, omega arith, ground arith)
  | inr e ↦
      let (k, p, q, r) = index_from-bounds (i + 1) s ch d (ground arith) in
      (suc k, omega arith, omega arith, r)
]

-- A character that is found is the one that stands at its digit, which is below 58.
pub char_at-index : (ch d : ℕ) → index ch ≡ some d → (d < 58) × (char_at alphabet d ≡ ch)
unfolding index
char_at-index ch d h =
    let (k, p, q, r) = index_from-bounds 0 alphabet ch d h in
    let same : d ≡ k = omega arith in rw same (q, r)
