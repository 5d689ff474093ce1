-- ===== src/Common/Finding.antt =====
-- What `includes` says of a text: that it has the other one somewhere in it.
use mathlib.Core.Path.{◌≡◌, refl, ap}
use mathlib.Core.Logic.{inl, inr}
use mathlib.Core.Bool.{true, false}
use mathlib.Core.List.{[], ◌∷◌, ◌++◌}
use mathlib.Core.Option.{some}
use native.Mathlib.Omega.{arith}
use olane.Common.Tests.{Bool-cases, Option-cases}
use olane.Common.Texts.{Text, strip_prefix, starts_with, starts_with-append, includes}

pub strip_prefix-eq : (p s r : Text) → strip_prefix p s ≡ some r → s ≡ p ++ r
unfolding strip_prefix
strip_prefix-eq [] s r h = cc
strip_prefix-eq (c ∷ p) [] r h = absurd (cc)
strip_prefix-eq (c ∷ p) (d ∷ s) r h = ground (arith, strip_prefix-eq p s r)

pub starts_with-eq : (p s : Text) → starts_with p s ≡ true → (r : Text) × (s ≡ p ++ r)
unfolding starts_with
starts_with-eq p s h = elim (Option-cases (strip_prefix p s)) [
  | inl e ↦ absurd (let no_match : starts_with p s ≡ false = rw (e, starts_with) refl in cc)
  | inr (r, e) ↦ (r, strip_prefix-eq p s r e)
]

pub includes-append : (p x y : Text) → includes p (x ++ (p ++ y)) ≡ true
unfolding includes
includes-append [] [] [] = starts_with-append [] []
includes-append [] [] (c ∷ y) = ground (arith, starts_with-append [] (c ∷ y))
includes-append (d ∷ p) [] y = ground (arith, starts_with-append (d ∷ p) y)
includes-append p (c ∷ x) y = ground (arith, includes-append p x y)

pub includes-found : (p s : Text) → includes p s ≡ true → (x y : Text) × (s ≡ x ++ (p ++ y))
unfolding includes
includes-found p [] h = let (r, e) = starts_with-eq p [] h in ([], r, e)
includes-found p (c ∷ s) h = elim (Bool-cases (starts_with p (c ∷ s))) [
  | inl e ↦ let (r, q) = starts_with-eq p (c ∷ s) e in ([], r, q)
  | inr e ↦ let (x, y, q) = includes-found p s (ground arith) in (c ∷ x, y, ap (◌∷◌ c) q)
]
