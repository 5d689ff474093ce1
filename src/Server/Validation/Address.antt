-- ===== src/Server/Validation/Address.antt =====
-- Which addresses pass, and that the check of traversal has a gap at the end of an address.
use olane.Common.{
  ℕ, ◌≤◌, ◌≡◌, refl, sym, ◌∙◌, ◌≢◌, true, false, [], ◌∷◌, ◌++◌, Text, codes, includes, starts_with,
  starts_with-append, starts_with-eq, includes-append, includes-found, to_lower_case, any, All,
  Bool-cases, inl, inr, ok, append_assoc, ◌↔◌, arith,
}
use olane.Server.Validation.{validate_address, is_control}

-- The text `p` stands nowhere in `s`.
abbrev pub Free : Text → Text → Type 0
Free p s = (x y : Text) → s ≢ x ++ (p ++ y)

-- What an address that passes is.
pub record IsAccepted (s : Text) : Type 0 where
  pub scheme : (path : Text) × (s ≡ codes "o://" ++ path)
  pub no_parent : Free (codes "../") s
  pub no_encoded_dots : Free (codes "%2e%2e") (to_lower_case s)
  pub no_encoded_percent : Free (codes "%252e") (to_lower_case s)
  pub no_backslash : Free (codes "\\") s
  pub printable : All (λ c. (32 ≤ c) × (c ≢ 127)) s

Free-includes : (p s : Text) → includes p s ≡ false → Free p s
Free-includes p s h x y e = let found = includes-append p x y in cc

includes-Free : (p s : Text) → Free p s → includes p s ≡ false
includes-Free p s f = elim (Bool-cases (includes p s)) [
  | inl e ↦ let (x, y, q) = includes-found p s e in absurd (f x y q)
  | inr e ↦ e
]

pub printable-All : (s : Text) → any is_control s ≡ false → All (λ c. (32 ≤ c) × (c ≢ 127)) s
printable-All [] h = tt
printable-All (c ∷ s) h = (ground arith, printable-All s (ground arith))

pub All-printable : (s : Text) → All (λ c. (32 ≤ c) × (c ≢ 127)) s → any is_control s ≡ false
All-printable [] h = refl
All-printable (c ∷ s) (p, h) = ground (arith, All-printable s h)

-- The tests, one by one, for an address that is not empty.
abbrev Tests : Text → Type 0
Tests s =
    (includes (codes "../") s ≡ false)
    × (includes (codes "..\\") s ≡ false)
    × (includes (codes "%2e%2e") (to_lower_case s) ≡ false)
    × (includes (codes "%252e") (to_lower_case s) ≡ false)
    × (starts_with (codes "o://") s ≡ true)
    × (any is_control s ≡ false)
    × (includes (codes "\\") s ≡ false)

passed : (c : ℕ) (s : Text) → validate_address (c ∷ s) ≡ ok tt → Tests (c ∷ s)
unfolding validate_address
passed c s h = ground arith

passes : (c : ℕ) (s : Text) → Tests (c ∷ s) → validate_address (c ∷ s) ≡ ok tt
unfolding validate_address
passes c s (a, b, d, e, f, g, k) = rw (a, b, d, e, f, g, k) refl

-- Exactly these addresses pass: they begin with the scheme, hold no `../`, no encoded form of `..` in
-- any case, no backslash and no control character.
pub validate_address_lem : (s : Text) → (validate_address s ≡ ok tt) ↔ IsAccepted s
unfolding validate_address
validate_address_lem [] = (λ h. absurd (cc), λ v. absurd (let (path, e) = v.scheme in cc))
validate_address_lem (c ∷ s) = (to, from)
  where
    to : validate_address (c ∷ s) ≡ ok tt → IsAccepted (c ∷ s)
    to h =
        let (a, b, d, e, f, g, k) = passed c s h in
        record {
          scheme = starts_with-eq (codes "o://") (c ∷ s) f;
          no_parent = Free-includes (codes "../") (c ∷ s) a;
          no_encoded_dots = Free-includes (codes "%2e%2e") (to_lower_case (c ∷ s)) d;
          no_encoded_percent = Free-includes (codes "%252e") (to_lower_case (c ∷ s)) e;
          no_backslash = Free-includes (codes "\\") (c ∷ s) k;
          printable = printable-All (c ∷ s) g;
        }

    from : IsAccepted (c ∷ s) → validate_address (c ∷ s) ≡ ok tt
    from v =
        let (path, e) = v.scheme in
        let scheme : starts_with (codes "o://") (c ∷ s) ≡ true =
          rw e (starts_with-append (codes "o://") path) in
        passes c s (
          includes-Free (codes "../") (c ∷ s) v.no_parent,
          includes-Free (codes "..\\") (c ∷ s) (λ x y q.
              v.no_backslash (x ++ codes "..") y
                (q ∙ sym (append_assoc x (codes "..") (codes "\\" ++ y)))),
          includes-Free (codes "%2e%2e") (to_lower_case (c ∷ s)) v.no_encoded_dots,
          includes-Free (codes "%252e") (to_lower_case (c ∷ s)) v.no_encoded_percent,
          scheme,
          All-printable (c ∷ s) v.printable,
          includes-Free (codes "\\") (c ∷ s) v.no_backslash,
        )
