-- ===== src/Server/Validation/Method.antt =====
-- Which method names pass.
use olane.Common.{
  ◌≤◌, ◌≡◌, refl, ap, ◌≢◌, ◌↔◌, false, List, [], ◌∷◌, ◌++◌, Text, codes, text_eq, text_eq_iff,
  starts_with, starts_with-append, starts_with-eq, to_lower_case, any, All, Bool-cases, inl, inr,
  ok, arith,
}
use olane.Server.Validation.{validate_method, blocked_methods, is_control}
use olane.Server.Validation.Address.{printable-All, All-printable}

-- What a method that passes is.
pub record IsAllowed (m : Text) : Type 0 where
  pub nonempty : m ≢ []
  pub is_public : (rest : Text) → m ≢ codes "_" ++ rest
  pub not_blocked : All (λ b. to_lower_case m ≢ b) blocked_methods
  pub printable : All (λ c. (32 ≤ c) × (c ≢ 127)) m

different : (t : Text) (bs : List Text) → any (text_eq t) bs ≡ false → All (λ b. t ≢ b) bs
different t [] h = tt
different t (b ∷ bs) h = (λ e. ground (arith, text_eq_iff t b), different t bs (ground arith))

none_equal : (t : Text) (bs : List Text) → All (λ b. t ≢ b) bs → any (text_eq t) bs ≡ false
none_equal t [] h = refl
none_equal t (b ∷ bs) (p, h) = ground (arith, text_eq_iff t b, none_equal t bs h)

-- Exactly these methods pass: the names that are not empty, do not begin with an underscore, are none
-- of the three blocked ones in any case, and hold no control character.
pub validate_method_lem : (m : Text) → (validate_method m ≡ ok tt) ↔ IsAllowed m
unfolding validate_method
validate_method_lem [] = (λ h. absurd (cc), λ v. absurd (v.nonempty refl))
validate_method_lem (c ∷ s) = (to, from)
  where
    to : validate_method (c ∷ s) ≡ ok tt → IsAllowed (c ∷ s)
    to h =
        let tests : (starts_with (codes "_") (c ∷ s) ≡ false)
            × (any (text_eq (to_lower_case (c ∷ s))) blocked_methods ≡ false)
            × (any is_control (c ∷ s) ≡ false) =
          ground arith in
        let (a, b, d) = tests in
        record {
          nonempty = λ e. cc;
          is_public = λ rest e.
              let found = starts_with-append (codes "_") rest in
              ground (arith, ap (starts_with (codes "_")) e);
          not_blocked = different (to_lower_case (c ∷ s)) blocked_methods b;
          printable = printable-All (c ∷ s) d;
        }

    from : IsAllowed (c ∷ s) → validate_method (c ∷ s) ≡ ok tt
    from v =
        let starts : starts_with (codes "_") (c ∷ s) ≡ false =
          elim (Bool-cases (starts_with (codes "_") (c ∷ s))) [
            | inl e ↦ let (r, q) = starts_with-eq (codes "_") (c ∷ s) e in absurd (v.is_public r q)
            | inr e ↦ e
          ] in
        rw
          (
            starts,
            none_equal (to_lower_case (c ∷ s)) blocked_methods v.not_blocked,
            All-printable (c ∷ s) v.printable,
          )
          refl
