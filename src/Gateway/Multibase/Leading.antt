-- ===== src/Gateway/Multibase/Leading.antt =====
-- Leading zeros, reversal, and the conversion between two bases.
use mathlib.Core.List.{reverse-cons, reverse-reverse}
use olane.Common.{
  ℕ, zero, suc, ◌+◌, ◌*◌, ◌≤◌, ◌<◌, ◌≡◌, refl, sym, ap, ◌∙◌, ◌≢◌, List, [], ◌∷◌, ◌++◌, reverse,
  arith, All, All-append, Bool-cases, ◌==◌, inl, inr, drop,
}
use olane.Gateway.Multibase.{absorb_all, leading, repeat}
use olane.Gateway.Multibase.Digits.{
  value, value_from, TopNonzero, IsCanonical, value-absorb_all, absorb_all-IsCanonical,
  IsCanonical-unique,
}

-- The list does not begin with `c`.
abbrev pub HeadNe : ℕ → List ℕ → Type 0
HeadNe c [] = Unit
HeadNe c (x ∷ xs) = x ≢ c

module _ (c : ℕ) where
  pub leading-repeat : (z : ℕ) (t : List ℕ) → HeadNe c t → leading c (repeat z c ++ t) ≡ z
  unfolding leading repeat
  leading-repeat zero [] h = refl
  leading-repeat zero (x ∷ t) h = ground arith
  leading-repeat (suc z) t h = ground (arith, leading-repeat z t h)

  pub drop-repeat : (z : ℕ) (t : List ℕ) → drop z (repeat z c ++ t) ≡ t
  unfolding repeat
  drop-repeat zero t = refl
  drop-repeat (suc z) t = drop-repeat z t

  pub repeat-drop-leading : (xs : List ℕ) → repeat (leading c xs) c ++ drop (leading c xs) xs ≡ xs
  unfolding leading repeat
  repeat-drop-leading [] = refl
  repeat-drop-leading (x ∷ xs) = elim (Bool-cases (x == c)) [
    | inl e ↦ let same : x ≡ c = ground arith in rw (e, repeat-drop-leading xs, same)
    | inr e ↦ rw e
  ]

  pub drop-leading-HeadNe : (xs : List ℕ) → HeadNe c (drop (leading c xs) xs)
  unfolding leading
  drop-leading-HeadNe [] = tt
  drop-leading-HeadNe (x ∷ xs) = elim (Bool-cases (x == c)) [
    | inl e ↦ rw e (drop-leading-HeadNe xs)
    | inr e ↦ rw e (ground arith)
  ]

All-reverse {ℓ} : (P : ℕ → Type ℓ) (xs : List ℕ) → All P xs → All P (reverse xs)
All-reverse P [] h = tt
All-reverse P (x ∷ xs) (p, h) =
    rw reverse-cons (All-append P (reverse xs) (x ∷ []) (All-reverse P xs h) (p, tt))

TopNonzero-snoc : (xs : List ℕ) (x : ℕ) → x ≢ 0 → TopNonzero (xs ++ x ∷ [])
TopNonzero-snoc [] x h = h
TopNonzero-snoc (y ∷ []) x h = h
TopNonzero-snoc (y ∷ z ∷ xs) x h = TopNonzero-snoc (z ∷ xs) x h

TopNonzero-snoc_inv : (xs : List ℕ) (x : ℕ) → TopNonzero (xs ++ x ∷ []) → x ≢ 0
TopNonzero-snoc_inv [] x h = h
TopNonzero-snoc_inv (y ∷ []) x h = h
TopNonzero-snoc_inv (y ∷ z ∷ xs) x h = TopNonzero-snoc_inv (z ∷ xs) x h

reverse-TopNonzero : (xs : List ℕ) → HeadNe 0 xs → TopNonzero (reverse xs)
reverse-TopNonzero [] h = tt
reverse-TopNonzero (x ∷ xs) h = rw reverse-cons (TopNonzero-snoc (reverse xs) x h)

HeadNe-of_reverse : (xs : List ℕ) → TopNonzero (reverse xs) → HeadNe 0 xs
HeadNe-of_reverse [] h = tt
HeadNe-of_reverse (x ∷ xs) h = TopNonzero-snoc_inv (reverse xs) x (rw reverse-cons at h)

pub reverse-HeadNe : (ds : List ℕ) → TopNonzero ds → HeadNe 0 (reverse ds)
reverse-HeadNe ds h = HeadNe-of_reverse (reverse ds) (rw reverse-reverse h)

value_from-append :
    (b acc : ℕ) (xs : List ℕ) (x : ℕ)
    → value_from b acc (xs ++ x ∷ []) ≡ value_from b acc xs * b + x
unfolding value_from
value_from-append b acc [] x = refl
value_from-append b acc (y ∷ xs) x = value_from-append b (acc * b + y) xs x

value_from-reverse : (b : ℕ) (ds : List ℕ) → value_from b 0 (reverse ds) ≡ value b ds
unfolding value
value_from-reverse b [] = unfold value_from in refl
value_from-reverse b (d ∷ ds) =
    rw (reverse-cons, value_from-append b 0 (reverse ds) d, value_from-reverse b ds) (omega arith)

pub reverse-digits : (b : ℕ) (ds : List ℕ) → All (λ d. d < b) ds → All (λ d. d < b) (reverse ds)
reverse-digits b ds h = All-reverse (λ d. d < b) ds h

-- Digits in base `m` with no leading zero, carried over to base `b` and back, are the same digits.
pub absorb_all-inverse :
    (m b : ℕ)
    → 2 ≤ m
    → 2 ≤ b
    → (xs : List ℕ) → All (λ d. d < m) xs
    → HeadNe 0 xs
    → absorb_all b m [] (reverse (absorb_all m b [] xs)) ≡ reverse xs
unfolding value
absorb_all-inverse m b hm hb xs h k =
    IsCanonical-unique m hm _ (reverse xs) there.digits (reverse-digits m xs h) there.top
      (reverse-TopNonzero xs k)
      (value-absorb_all m hm b [] (reverse ds)
        ∙ value_from-reverse b ds
        ∙ value-absorb_all b hb m [] xs
        ∙ ap (value_from m 0) (sym (reverse-reverse xs))
        ∙ value_from-reverse m (reverse xs))
  where
    ds : List ℕ
    ds = absorb_all m b [] xs

    there : IsCanonical m (absorb_all b m [] (reverse ds))
    there =
        absorb_all-IsCanonical m hm b (omega arith) [] (reverse ds)
          (record { digits = tt; top = tt })
