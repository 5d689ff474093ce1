-- ===== src/Gateway/Names/Policy.antt =====
-- The naming policy.
use olane.Common.{
  ℕ, ◌≤◌, ◌≡◌, refl, sym, ap, ◌∙◌, ◌↔◌, ◌⊎◌, inl, true, false, [], ◌∷◌, none, Text, text_eq, any,
  All, length, to_lower_case, arith,
}
use olane.Gateway.Names.{
  reserved_gateway_names, is_alphanumeric, is_single, is_reserved_gateway_name, label_rest,
  is_label, validate_gateway_name,
}

-- A letter, a digit or a hyphen.
abbrev IsLabelUnit : ℕ → Type 0
IsLabelUnit c = (is_alphanumeric c ≡ true) ⊎ (c ≡ 45)

abbrev LastIs : (ℕ → Type 0) → Text → Type 0
LastIs P [] = Unit
LastIs P (c ∷ []) = P c
LastIs P (c ∷ d ∷ s) = LastIs P (d ∷ s)

abbrev FirstIs : (ℕ → Type 0) → Text → Type 0
FirstIs P [] = Unit
FirstIs P (c ∷ s) = P c

abbrev Alphanumeric : ℕ → Type 0
Alphanumeric c = is_alphanumeric c ≡ true

-- The documented policy.
abbrev pub IsGatewayName : Text → Type 0
IsGatewayName name =
    (2 ≤ length name)
    × (length name ≤ 63)
    × All IsLabelUnit name
    × FirstIs Alphanumeric name
    × LastIs Alphanumeric name
    × (any (text_eq name) reserved_gateway_names ≡ false)

lower_unit_label : (c : ℕ) (s : Text) → IsLabelUnit c → to_lower_case (c ∷ s) ≡ c ∷ to_lower_case s
unfolding to_lower_case is_alphanumeric
lower_unit_label c s h = ground arith

pub lower-label : (s : Text) → All IsLabelUnit s → to_lower_case s ≡ s
unfolding to_lower_case
lower-label [] h = refl
lower-label (c ∷ s) (p, h) = lower_unit_label c s p ∙ ap (◌∷◌ c) (lower-label s h)

label_rest_iff : (s : Text) → (label_rest s ≡ true) ↔ (All IsLabelUnit s × LastIs Alphanumeric s)
unfolding label_rest
label_rest_iff [] = (λ h. (tt, tt), λ h. refl)
label_rest_iff (c ∷ []) = (λ h. ((inl h, tt), h), λ h. h.1)
label_rest_iff (c ∷ d ∷ s) = (
  λ h.
      let rest = (label_rest_iff (d ∷ s)).0 (ground arith) in
      let here : IsLabelUnit c = ground arith in ((here, rest.0), rest.1),
  λ h. let rest = (label_rest_iff (d ∷ s)).1 (h.0.1, h.1) in let here = h.0.0 in ground arith,
)

is_label_iff :
    (s : Text)
    → 2 ≤ length s
    → (is_label s ≡ true) ↔ (All IsLabelUnit s × FirstIs Alphanumeric s × LastIs Alphanumeric s)
unfolding is_label
is_label_iff [] h = absurd (omega arith)
is_label_iff (c ∷ []) h = absurd (omega arith)
is_label_iff (c ∷ d ∷ s) h = (
  λ e.
      let rest = (label_rest_iff (d ∷ s)).0 (ground arith) in
      let first : Alphanumeric c = ground arith in ((inl first, rest.0), first, rest.1),
  λ e.
      let rest = (label_rest_iff (d ∷ s)).1 (e.0.1, e.2) in
      let first : Alphanumeric c = e.1 in ground arith,
)

is_single-long : (s : Text) → 2 ≤ length s → is_single s ≡ false
is_single-long [] h = absurd (omega arith)
is_single-long (c ∷ []) h = absurd (omega arith)
is_single-long (c ∷ d ∷ s) h = refl

reserved-label :
    (s : Text)
    → 2 ≤ length s
    → All IsLabelUnit s
    → is_reserved_gateway_name s ≡ any (text_eq s) reserved_gateway_names
unfolding is_reserved_gateway_name
reserved-label s h all = rw (lower-label s all, is_single-long s h) (ground arith)

accepted :
    (name : Text)
    → (validate_gateway_name name ≡ none) ↔ (
        (2 ≤ length name)
        × (length name ≤ 63)
        × (is_label name ≡ true)
        × (is_reserved_gateway_name name ≡ false))
unfolding validate_gateway_name
accepted name =
    (λ e. (ground arith, ground arith, ground arith, ground arith), λ (a, b, c, d). ground arith)

-- A name is accepted exactly if it has 2 to 63 units, all of them lowercase ASCII letters, digits or
-- hyphens, the first and the last no hyphen, and is none of the reserved names.
pub validate_gateway_name_lem :
    (name : Text) → (validate_gateway_name name ≡ none) ↔ IsGatewayName name
validate_gateway_name_lem name = (
  λ e.
      let (low, high, label, free) = (accepted name).0 e in
      let (all, first, last) = (is_label_iff name low).0 label in
      (low, high, all, first, last, sym (reserved-label name low all) ∙ free),
  λ (low, high, all, first, last, free).
      (accepted name).1 (
        low,
        high,
        (is_label_iff name low).1 (all, first, last),
        reserved-label name low all ∙ free,
      ),
)

pub accepted-free :
    (name : Text) → validate_gateway_name name ≡ none → is_reserved_gateway_name name ≡ false
accepted-free name e = ((accepted name).0 e).3
