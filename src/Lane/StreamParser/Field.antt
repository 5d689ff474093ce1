-- ===== src/Lane/StreamParser/Field.antt =====
-- Where the parser takes the field's value to begin: behind the field's name in quotes, a colon and a
-- quote, with white space around the colon.
use olane.Common.{
  ℕ, ◌≤◌, ◌≡◌, refl, sym, ap, ◌∙◌, ◌⊎◌, ◌↔◌, inl, inr, true, false, [], ◌∷◌, ◌++◌, append_assoc,
  none, some, Text, codes, strip_prefix, strip_prefix-append, strip_prefix-eq, length, All,
  Option-cases, Bool-cases, arith,
}
use olane.Lane.StreamParser.{is_space, skip_spaces, expect, match_field, find_field}

-- The white space and line terminators of JavaScript.
abbrev pub IsSpace : ℕ → Type 0
IsSpace c =
    ((9 ≤ c) × (c ≤ 13))
    ⊎ (c ≡ 32)
    ⊎ (c ≡ 0xa0)
    ⊎ (c ≡ 0x1680)
    ⊎ ((0x2000 ≤ c) × (c ≤ 0x200a))
    ⊎ (c ≡ 0x2028)
    ⊎ (c ≡ 0x2029)
    ⊎ (c ≡ 0x202f)
    ⊎ (c ≡ 0x205f)
    ⊎ (c ≡ 0x3000)
    ⊎ (c ≡ 0xfeff)

is_space_iff : (c : ℕ) → (is_space c ≡ true) ↔ IsSpace c
unfolding is_space
is_space_iff c = ground arith

-- The field with what comes behind the quote that opens its value.
abbrev pub field_then : Text → Text → Text → Text → Text
field_then name gap gap' rest = 34 ∷ (name ++ (34 ∷ (gap ++ (b':' ∷ (gap' ++ (34 ∷ rest))))))

skip_spaces-eq : (s : Text) → (gap : Text) × All IsSpace gap × (s ≡ gap ++ skip_spaces s)
unfolding skip_spaces
skip_spaces-eq [] = ([], tt, refl)
skip_spaces-eq (c ∷ s) = elim (Bool-cases (is_space c)) [
  | inl e ↦
      let (gap, h, q) = skip_spaces-eq s in
      (c ∷ gap, ((is_space_iff c).0 e, h), rw e (ap (◌∷◌ c) q))
  | inr e ↦ ([], tt, rw e refl)
]

skip_spaces-gap :
    (gap s : Text) (c : ℕ)
    → All IsSpace gap
    → is_space c ≡ false
    → skip_spaces (gap ++ c ∷ s) ≡ c ∷ s
unfolding skip_spaces
skip_spaces-gap [] s c h e = rw e refl
skip_spaces-gap (d ∷ gap) s c (p, h) e = rw ((is_space_iff d).1 p) (skip_spaces-gap gap s c h e)

expect-eq : (c : ℕ) (s rest : Text) → expect c s ≡ some rest → s ≡ c ∷ rest
unfolding expect
expect-eq c [] rest h = absurd (cc)
expect-eq c (d ∷ s) rest h = ground arith

expect_same : (c : ℕ) (s : Text) → expect c (c ∷ s) ≡ some s
unfolding expect
expect_same c s = ground arith

-- Whatever the regular expression matches is such a field.
match_field-then :
    (name s rest : Text)
    → match_field name s ≡ some rest
    → (gap : Text) × (gap' : Text) × All IsSpace gap
      × All IsSpace gap'
      × (s ≡ field_then name gap gap' rest)
unfolding match_field
match_field-then name s rest h = elim (Option-cases (strip_prefix (34 ∷ (name ++ codes "\"")) s)) [
  | inl e ↦ absurd (let no_name : match_field name s ≡ none = rw (e, match_field) refl in cc)
  | inr (named, e) ↦ elim (Option-cases (expect b':' (skip_spaces named))) [
    | inl f ↦ absurd (let no_colon : match_field name s ≡ none = rw (e, f, match_field) refl in cc)
    | inr (valued, f) ↦
        let opened : expect 34 (skip_spaces valued) ≡ some rest = rw (e, f) at h in
        let (gap, k, q) = skip_spaces-eq named in
        let (gap', k', q') = skip_spaces-eq valued in
        (
          gap,
          gap',
          k,
          k',
          strip_prefix-eq (34 ∷ (name ++ codes "\"")) s named e
              ∙ append_assoc (34 ∷ name) (codes "\"") named
              ∙ ap (λ t. 34 ∷ (name ++ (34 ∷ t)))
                  (q
                    ∙ ap (λ t. gap ++ t)
                        (expect-eq b':' (skip_spaces named) valued f
                          ∙ ap (λ t. b':' ∷ t)
                              (q'
                                ∙ ap (λ t. gap' ++ t)
                                    (expect-eq 34 (skip_spaces valued) rest opened)))),
        )
  ]
]

pub match_field_then :
    (name gap gap' rest : Text)
    → All IsSpace gap
    → All IsSpace gap'
    → match_field name (field_then name gap gap' rest) ≡ some rest
unfolding match_field
match_field_then name gap gap' rest h k =
    let behind = gap ++ (b':' ∷ (gap' ++ (34 ∷ rest))) in
    let named : strip_prefix (34 ∷ (name ++ codes "\"")) (field_then name gap gap' rest)
        ≡ some behind =
      ap (strip_prefix (34 ∷ (name ++ codes "\"")))
        (sym (append_assoc (34 ∷ name) (codes "\"") behind))
      ∙ strip_prefix-append (34 ∷ (name ++ codes "\"")) behind in
    rw
      (
        named,
        skip_spaces-gap gap (gap' ++ (34 ∷ rest)) b':' h (unfold is_space in refl),
        expect_same b':' (gap' ++ (34 ∷ rest)),
        skip_spaces-gap gap' rest 34 k (unfold is_space in refl),
        expect_same 34 rest,
      )
      refl

field_then-append :
    (name gap gap' r t : Text) → field_then name gap gap' r ++ t ≡ field_then name gap gap' (r ++ t)
field_then-append name gap gap' r t =
    append_assoc (34 ∷ name) (34 ∷ (gap ++ (b':' ∷ (gap' ++ (34 ∷ r))))) t
    ∙ ap (λ u. 34 ∷ (name ++ (34 ∷ u)))
        (append_assoc gap (b':' ∷ (gap' ++ (34 ∷ r))) t
          ∙ ap (λ u. gap ++ (b':' ∷ u)) (append_assoc gap' (34 ∷ r) t))

-- What stands before the value, and the value.
pub field_split :
    (before name gap gap' rest : Text)
    → before ++ field_then name gap gap' rest ≡ (before ++ field_then name gap gap' []) ++ rest
field_split before name gap gap' rest =
    ap (λ u. before ++ u) (sym (field_then-append name gap gap' [] rest))
    ∙ sym (append_assoc before (field_then name gap gap' []) rest)

-- The document has the field from somewhere on, and what is behind its opening quote begins at `start`.
pub record IsFieldAt (name document : Text) (start : ℕ) : Type 0 where
  pub before : Text
  pub gap : Text
  pub gap' : Text
  pub rest : Text
  pub gap_spaces : All IsSpace gap
  pub gap'_spaces : All IsSpace gap'
  pub document_eq : document ≡ before ++ field_then name gap gap' rest
  pub start_eq : start ≡ length (before ++ field_then name gap gap' [])

pub find_field-then :
    (name s rest : Text)
    → find_field name s ≡ some rest
    → (before : Text) × (gap : Text) × (gap' : Text) × All IsSpace gap
      × All IsSpace gap'
      × (s ≡ before ++ field_then name gap gap' rest)
unfolding find_field
find_field-then name [] rest h = absurd (cc)
find_field-then name (c ∷ s) rest h = elim (Option-cases (match_field name (c ∷ s))) [
  | inl e ↦
      let (before, gap, gap', k, k', q) = find_field-then name s rest (rw (e, find_field) at h) in
      (c ∷ before, gap, gap', k, k', ap (◌∷◌ c) q)
  | inr (found, e) ↦
      let same : match_field name (c ∷ s) ≡ some rest = e ∙ (rw (e, find_field) at h) in
      let (gap, gap', k, k', q) = match_field-then name (c ∷ s) rest same in
      ([], gap, gap', k, k', q)
]

pub find_field-some :
    (name before s rest : Text)
    → match_field name s ≡ some rest
    → find_field name (before ++ s) ≡ none
    → ⊥
unfolding find_field match_field strip_prefix
find_field-some name [] [] rest e h = absurd (cc)
find_field-some name [] (c ∷ s) rest e h =
    absurd (let found : find_field name (c ∷ s) ≡ some rest = rw (e, find_field) refl in cc)
find_field-some name (c ∷ before) s rest e h =
    elim (Option-cases (match_field name (c ∷ (before ++ s)))) [
      | inl f ↦ find_field-some name before s rest e (rw (f, find_field) at h)
      | inr (r, f) ↦
          absurd (
            let found : find_field name (c ∷ (before ++ s)) ≡ some r = rw (f, find_field) refl in
            cc)
    ]
