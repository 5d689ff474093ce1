-- ===== src/Gateway/Multibase/Digits.antt =====
-- Little-endian digits: the value of what the loops build, its canonical form and its uniqueness.
use native.Mathlib.Nat.{
  div-add-mod, mod-lt, mod-eq_of_lt, add-mul-mod_self_left, add-mul-div_left, div-eq_of_lt,
}
use mathlib.Core.Path.{ap₂}
use olane.Common.{
  ℕ, zero, suc, ◌+◌, ◌*◌, ◌/◌, ◌%◌, ◌≤◌, ◌<◌, ◌≡◌, refl, ap, ◌≢◌, List, [], ◌∷◌, arith, All,
  Bool-cases, ◌==◌, inl, inr,
}
use olane.Gateway.Multibase.{flush, absorb, absorb_all}

-- The number that digits stand for, least significant first.
unfoldable pub value : ℕ → List ℕ → ℕ
value b [] = 0
value b (d ∷ ds) = d + b * value b ds

-- The number that digits stand for, most significant first, behind `acc`.
unfoldable pub value_from : ℕ → ℕ → List ℕ → ℕ
value_from b acc [] = acc
value_from b acc (x ∷ xs) = value_from b (acc * b + x) xs

-- The most significant digit is not 0.
abbrev pub TopNonzero : List ℕ → Type 0
TopNonzero [] = Unit
TopNonzero (d ∷ []) = d ≢ 0
TopNonzero (d ∷ e ∷ ds) = TopNonzero (e ∷ ds)

pub record IsCanonical (b : ℕ) (ds : List ℕ) : Type 0 where
  pub digits : All (λ d. d < b) ds
  pub top : TopNonzero ds

TopNonzero-value : (b d : ℕ) (ds : List ℕ) → 0 < b → TopNonzero (d ∷ ds) → 0 < value b (d ∷ ds)
unfolding value
TopNonzero-value b d [] h t = grind arith
TopNonzero-value b d (e ∷ ds) h t = let p = TopNonzero-value b e ds h t in grind arith

TopNonzero-cons :
    (b d : ℕ) (ds : List ℕ) → TopNonzero ds → 0 < value b (d ∷ ds) → TopNonzero (d ∷ ds)
unfolding value
TopNonzero-cons b d [] t h = λ e. grind arith
TopNonzero-cons b d (e ∷ ds) t h = t

top_tail : (d : ℕ) (ds : List ℕ) → TopNonzero (d ∷ ds) → TopNonzero ds
top_tail d [] t = tt
top_tail d (e ∷ ds) t = t

digit_split : (b d e v w : ℕ) → d < b → e < b → d + b * v ≡ e + b * w → (d ≡ e) × (v ≡ w)
digit_split b d e v w p q h =
    let pos : 0 < b = omega arith in
    let mods = ap (λ t. t % b) h in
    let divs = ap (λ t. t / b) h in
    (
      omega (
        arith,
        mods,
        add-mul-mod_self_left d b v,
        add-mul-mod_self_left e b w,
        mod-eq_of_lt p,
        mod-eq_of_lt q,
      ),
      omega (
        arith,
        divs,
        add-mul-div_left d v pos,
        add-mul-div_left e w pos,
        div-eq_of_lt p,
        div-eq_of_lt q,
      ),
    )

module _ (b : ℕ) (two : 2 ≤ b) where
  quotient-lt : (c : ℕ) → 0 < c → c / b < c
  quotient-lt c h = grind arith

  value-flush : (fuel c : ℕ) → c ≤ fuel → value b (flush b fuel c) ≡ c
  unfolding flush value
  value-flush zero c h = omega arith
  value-flush (suc fuel) c h = elim (Bool-cases (c == 0)) [
    | inl e ↦ rw e (ground arith)
    | inr e ↦
        let pos : 0 < c = ground arith in
        let ih = value-flush fuel (c / b) (omega (arith, quotient-lt c pos)) in
        rw (e, ih) (omega (arith, div-add-mod c b))
  ]

  flush-digits : (fuel c : ℕ) → All (λ d. d < b) (flush b fuel c)
  unfolding flush
  flush-digits zero c = tt
  flush-digits (suc fuel) c = elim (Bool-cases (c == 0)) [
    | inl e ↦ rw e tt
    | inr e ↦ rw e (mod-lt c (omega arith), flush-digits fuel (c / b))
  ]

  value→TopNonzero :
      (d : ℕ) (ds : List ℕ) → TopNonzero ds → value b (d ∷ ds) ≢ 0 → TopNonzero (d ∷ ds)
  value→TopNonzero d ds t h = TopNonzero-cons b d ds t (omega arith)

  flush-TopNonzero : (fuel c : ℕ) → c ≤ fuel → TopNonzero (flush b fuel c)
  unfolding flush
  flush-TopNonzero zero c h = tt
  flush-TopNonzero (suc fuel) c h = elim (Bool-cases (c == 0)) [
    | inl e ↦ rw e tt
    | inr e ↦
        let pos : 0 < c = ground arith in
        let small : c / b ≤ fuel = omega (arith, quotient-lt c pos) in
        rw e (
          value→TopNonzero (c % b) (flush b fuel (c / b)) (flush-TopNonzero fuel (c / b) small)
            (unfold value in rw (value-flush fuel (c / b) small) (omega (arith, div-add-mod c b))))
  ]

  module _ (m : ℕ) where
    -- One round multiplies the number by `m` and adds the carry.
    pub value-absorb : (c : ℕ) (ds : List ℕ) → value b (absorb m b c ds) ≡ value b ds * m + c
    unfolding absorb value
    value-absorb c [] = rw (value-flush c c (omega arith)) (omega arith)
    value-absorb c (d ∷ ds) =
        rw (value-absorb ((d * m + c) / b) ds) (omega (arith, div-add-mod (d * m + c) b))

    absorb-digits : (c : ℕ) (ds : List ℕ) → All (λ d. d < b) (absorb m b c ds)
    unfolding absorb
    absorb-digits c [] = flush-digits c c
    absorb-digits c (d ∷ ds) =
        (mod-lt (d * m + c) (omega arith), absorb-digits ((d * m + c) / b) ds)

    module _ (positive : 0 < m) where
      absorb-TopNonzero : (c : ℕ) (ds : List ℕ) → TopNonzero ds → TopNonzero (absorb m b c ds)
      unfolding absorb
      absorb-TopNonzero c [] t = flush-TopNonzero c c (omega arith)
      absorb-TopNonzero c (d ∷ []) t =
          value→TopNonzero ((d * m + c) % b) (absorb m b ((d * m + c) / b) [])
            (flush-TopNonzero ((d * m + c) / b) ((d * m + c) / b) (omega arith))
            (λ z.
              let v = TopNonzero-value b d [] (omega arith) t in
              let w = value-absorb c (d ∷ []) in grind arith)
      absorb-TopNonzero c (d ∷ e ∷ ds) t =
          value→TopNonzero ((d * m + c) % b) (absorb m b ((d * m + c) / b) (e ∷ ds))
            (absorb-TopNonzero ((d * m + c) / b) (e ∷ ds) t)
            (λ z.
              let v = TopNonzero-value b d (e ∷ ds) (omega arith) t in
              let w = value-absorb c (d ∷ e ∷ ds) in grind arith)

      -- The digits stay below the base, and the top one stays other than 0.
      pub absorb-IsCanonical :
          (c : ℕ) (ds : List ℕ) → IsCanonical b ds → IsCanonical b (absorb m b c ds)
      absorb-IsCanonical c ds h = record {
        digits = absorb-digits c ds;
        top = absorb-TopNonzero c ds h.top;
      }

      pub absorb_all-IsCanonical :
          (ds xs : List ℕ) → IsCanonical b ds → IsCanonical b (absorb_all m b ds xs)
      unfolding absorb_all
      absorb_all-IsCanonical ds [] h = h
      absorb_all-IsCanonical ds (x ∷ xs) h =
          absorb_all-IsCanonical (absorb m b x ds) xs (absorb-IsCanonical x ds h)

    pub value-absorb_all :
        (ds xs : List ℕ) → value b (absorb_all m b ds xs) ≡ value_from m (value b ds) xs
    unfolding absorb_all value_from
    value-absorb_all ds [] = refl
    value-absorb_all ds (x ∷ xs) = rw (value-absorb_all (absorb m b x ds) xs, value-absorb x ds)

  -- Two canonical digit sequences of one number are the same.
  pub IsCanonical-unique :
      (ds es : List ℕ)
      → All (λ d. d < b) ds
      → All (λ d. d < b) es
      → TopNonzero ds
      → TopNonzero es
      → value b ds ≡ value b es
      → ds ≡ es
  IsCanonical-unique [] [] _ _ _ _ h = refl
  IsCanonical-unique [] (e ∷ es) _ _ _ t h =
      absurd (let p = TopNonzero-value b e es (omega arith) t in unfold value in omega arith)
  IsCanonical-unique (d ∷ ds) [] _ _ s _ h =
      absurd (let p = TopNonzero-value b d ds (omega arith) s in unfold value in omega arith)
  IsCanonical-unique (d ∷ ds) (e ∷ es) (p, ps) (q, qs) s t h =
      let (same, rest) = digit_split b d e (value b ds) (value b es) p q (unfold value in h) in
      ap₂ ◌∷◌ same (IsCanonical-unique ds es ps qs (top_tail d ds s) (top_tail e es t) rest)
