-- ===== src/Lane/StreamParser/Quote.antt =====
-- The value up to the closing quote, and how it grows with the content.
use olane.Common.{
  ℕ, suc, ◌+◌, ◌-◌, ◌≤◌, ◌≡◌, refl, sym, ap, ◌∙◌, [], ◌∷◌, ◌++◌, append-nil, Option, none, some,
  Text, take, if◌then◌else◌, ◌==◌, Bool-cases, Option-cases, inl, inr, arith,
}
use olane.Lane.StreamParser.{backslash, quote, end_index, current_value}

-- The content up to its first quote that no backslash escapes, or all of it.
unfoldable pub until_quote : Text → Text
until_quote [] = []
until_quote (c ∷ []) = if c == 92 then c ∷ [] else if c == 34 then [] else c ∷ []
until_quote (c ∷ d ∷ s) =
    let escaped = until_quote s in
    let plain = until_quote (d ∷ s) in
    if c == 92 then c ∷ d ∷ escaped else if c == 34 then [] else c ∷ plain

-- What the index found cuts off is the value.
cut : ℕ → Text → Option ℕ → Text
cut i s none = s
cut i s (some e) = take (e - i) s

end_index-le : (i : ℕ) (s : Text) (e : ℕ) → end_index i s ≡ some e → i ≤ e
unfolding end_index
end_index-le i [] e h = absurd (cc)
end_index-le i (c ∷ []) e h = ground arith
end_index-le i (c ∷ d ∷ s) e h =
    ground (arith, end_index-le (i + 2) s e, end_index-le (i + 1) (d ∷ s) e)

cut-two :
    (i c d : ℕ) (s : Text) (o : Option ℕ)
    → ((e : ℕ) → o ≡ some e → i + 2 ≤ e)
    → cut i (c ∷ d ∷ s) o ≡ c ∷ d ∷ cut (i + 2) s o
unfolding cut
cut-two i c d s none h = refl
cut-two i c d s (some e) h =
    let k = h e refl in let form : e - i ≡ suc (suc (e - (i + 2))) = omega arith in rw form

cut-one :
    (i c : ℕ) (s : Text) (o : Option ℕ)
    → ((e : ℕ) → o ≡ some e → i + 1 ≤ e)
    → cut i (c ∷ s) o ≡ c ∷ cut (i + 1) s o
unfolding cut
cut-one i c s none h = refl
cut-one i c s (some e) h =
    let k = h e refl in let form : e - i ≡ suc (e - (i + 1)) = omega arith in rw form

cut-end_index : (i : ℕ) (s : Text) → cut i s (end_index i s) ≡ until_quote s
unfolding end_index until_quote
cut-end_index i [] = unfold cut in refl
cut-end_index i (c ∷ []) = unfold cut in ground arith
cut-end_index i (c ∷ d ∷ s) = elim (Bool-cases (c == backslash)) [
  | inl e ↦ rw e (
      cut-two i c d s (end_index (i + 2) s) (end_index-le (i + 2) s)
      ∙ ap (λ t. c ∷ d ∷ t) (cut-end_index (i + 2) s))
  | inr e ↦ elim (Bool-cases (c == quote)) [
    | inl f ↦ rw (e, f) (unfold cut in rw (sub-self i))
    | inr f ↦
        rw (e, f)
          (cut-one i c (d ∷ s) (end_index (i + 1) (d ∷ s)) (end_index-le (i + 1) (d ∷ s))
            ∙ ap (λ t. c ∷ t) (cut-end_index (i + 1) (d ∷ s)))
  ]
]
  where
    sub-self : (n : ℕ) → n - n ≡ 0
    sub-self n = omega arith

-- The loop over indices finds exactly that value.
pub current_value-until_quote : (content : Text) → current_value content ≡ until_quote content
unfolding current_value cut
current_value-until_quote content = elim (Option-cases (end_index 0 content)) [
  | inl e ↦ rw (e, current_value) (rw e at (cut-end_index 0 content))
  | inr (n, e) ↦
      let same : n - 0 ≡ n = omega arith in
      rw (e, current_value) (rw same at (rw e at (cut-end_index 0 content)))
]

-- More content only adds to the value.
pub until_quote-append : (s t : Text) → (r : Text) × (until_quote (s ++ t) ≡ until_quote s ++ r)
unfolding until_quote
until_quote-append [] t = (until_quote t, refl)
until_quote-append (c ∷ []) [] = ([], sym (append-nil _))
until_quote-append (c ∷ []) (d ∷ t) = elim (Bool-cases (c == backslash)) [
  | inl e ↦ (d ∷ until_quote t, rw e)
  | inr e ↦ elim (Bool-cases (c == quote)) [
    | inl f ↦ ([], rw (e, f))
    | inr f ↦ (until_quote (d ∷ t), rw (e, f))
  ]
]
until_quote-append (c ∷ d ∷ s) t = elim (Bool-cases (c == backslash)) [
  | inl e ↦ let (r, p) = until_quote-append s t in (r, rw e (ap (λ u. c ∷ d ∷ u) p))
  | inr e ↦ elim (Bool-cases (c == quote)) [
    | inl f ↦ ([], rw (e, f))
    | inr f ↦ let (r, p) = until_quote-append (d ∷ s) t in (r, rw (e, f) (ap (λ u. c ∷ u) p))
  ]
]
