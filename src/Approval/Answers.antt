-- ===== src/Approval/Answers.antt =====
-- What becomes of an answer as a human types it: with other words, capitals and white space around.
use mathlib.Core.List.{reverse-append, reverse-reverse, reverse-cons}
use olane.Common.{
  ℕ, ◌≡◌, ◌≢◌, refl, sym, ap, ◌∙◌, false, [], ◌∷◌, ◌++◌, append_assoc, reverse, some, Text, codes,
  to_lower_case, lower_unit, trim, trim_start, is_white, All, All-append, Bool-cases, inl, inr, ok,
  leb, ◌&&◌, ◌==◌, arith,
}
use olane.Approval.{
  approve, State, listed, tool_method_of, parse_approval_response, lowered, remember, after_reply,
  request_approval,
}
use olane.Approval.Parsing.{parse_approval_response_allow}

-- No white space.
abbrev IsSolid : Text → Type 0
IsSolid = All (λ c. is_white c ≡ false)

to_lower_case-append : (s t : Text) → to_lower_case (s ++ t) ≡ to_lower_case s ++ to_lower_case t
unfolding to_lower_case
to_lower_case-append [] t = refl
to_lower_case-append (c ∷ s) t =
    ap (λ r. lower_unit c ++ r) (to_lower_case-append s t)
    ∙ sym (append_assoc (lower_unit c) (to_lower_case s) (to_lower_case t))

-- Lower case makes nothing of white space but itself.
lower_unit-IsSolid :
    (c : ℕ) (rest : Text) → IsSolid (lower_unit c ++ rest) → (is_white c ≡ false) × IsSolid rest
lower_unit-IsSolid c rest h = elim (Bool-cases (leb 65 c && leb c 90)) [
  | inl e ↦ (ground arith, (rw e at h).1)
  | inr e ↦ elim (Bool-cases (c == 8490)) [
    | inl f ↦ (ground arith, (rw (e, f) at h).1)
    | inr f ↦ elim (Bool-cases (c == 304)) [
      | inl g ↦ (ground arith, (rw (e, f, g) at h).1.1)
      | inr g ↦ rw (e, f, g) at h
    ]
  ]
]

to_lower_case-IsSolid : (s : Text) → IsSolid (to_lower_case s) → IsSolid s
unfolding to_lower_case
to_lower_case-IsSolid [] h = tt
to_lower_case-IsSolid (c ∷ s) h =
    let (p, q) = lower_unit-IsSolid c (to_lower_case s) h in (p, to_lower_case-IsSolid s q)

trim_start-IsSolid :
    (before word after : Text)
    → word ≢ []
    → IsSolid word
    → (x : Text) × (trim_start (before ++ (word ++ after)) ≡ x ++ (word ++ after))
unfolding trim_start
trim_start-IsSolid [] [] after n h = absurd (n refl)
trim_start-IsSolid [] (c ∷ word) after n (p, h) = ([], rw p refl)
trim_start-IsSolid (b ∷ before) word after n h = elim (Bool-cases (is_white b)) [
  | inl e ↦ let (x, q) = trim_start-IsSolid before word after n h in (x, rw e q)
  | inr e ↦ (b ∷ before, rw e refl)
]

reverse-IsSolid : (s : Text) → IsSolid s → IsSolid (reverse s)
reverse-IsSolid [] h = tt
reverse-IsSolid (c ∷ s) (p, h) =
    rw (reverse-cons c s)
      (All-append (λ c. is_white c ≡ false) (reverse s) (c ∷ []) (reverse-IsSolid s h) (p, tt))

reverse-nonempty : (s : Text) → s ≢ [] → reverse s ≢ []
reverse-nonempty s n e = n (sym (reverse-reverse s) ∙ ap reverse e)

-- Solid text stays where white space is trimmed off the ends.
trim-IsSolid :
    (before word after : Text)
    → word ≢ []
    → IsSolid word
    → (x : Text) × (y : Text) × (trim (before ++ (word ++ after)) ≡ x ++ (word ++ y))
unfolding trim
trim-IsSolid before word after n h =
    let (x, q) = trim_start-IsSolid before word after n h in
    let (z, r) =
      trim_start-IsSolid (reverse after) (reverse word) (reverse x) (reverse-nonempty word n)
        (reverse-IsSolid word h) in
    let turned : reverse (x ++ (word ++ after)) ≡ reverse after ++ (reverse word ++ reverse x) =
      reverse_three x word after in
    (
      x,
      reverse z,
      ap (λ s. reverse (trim_start (reverse s))) q
          ∙ ap (λ s. reverse (trim_start s)) turned
          ∙ ap reverse r
          ∙ reverse_three z (reverse word) (reverse x)
          ∙ (λ i. reverse-reverse x i ++ (reverse-reverse word i ++ reverse z)),
    )
  where
    reverse_three : (u v w : Text) → reverse (u ++ (v ++ w)) ≡ reverse w ++ (reverse v ++ reverse u)
    reverse_three u v w =
        reverse-append u (v ++ w)
        ∙ ap (λ r. r ++ reverse u) (reverse-append v w)
        ∙ append_assoc (reverse w) (reverse v) (reverse u)

IsSolid-allow : IsSolid (codes "allow")
IsSolid-allow = (refl, (refl, (refl, (refl, (refl, tt)))))

lowered_allow :
    (before word after : Text)
    → to_lower_case word ≡ codes "allow"
    → parse_approval_response (lowered (some (before ++ (word ++ after)))) ≡ approve
lowered_allow before word after e =
    let solid : IsSolid word = to_lower_case-IsSolid word (rw e IsSolid-allow) in
    let (x, y, q) = trim-IsSolid before word after (nonempty word e) solid in
    ap (λ s. parse_approval_response (some (to_lower_case s))) q
    ∙ ap (λ s. parse_approval_response (some s))
        (to_lower_case-append x (word ++ y)
          ∙ ap (λ s. to_lower_case x ++ s)
              (to_lower_case-append word y ∙ ap (λ s. s ++ to_lower_case y) e))
    ∙ parse_approval_response_allow (to_lower_case x) (to_lower_case y)
  where
    nonempty : (w : Text) → to_lower_case w ≡ codes "allow" → w ≢ []
    nonempty [] f = absurd (unfold to_lower_case in cc)
    nonempty (c ∷ w) f = λ z. cc

-- Whatever else an answer says and however it is capitalised, with `allow` in it the action is approved
-- and nothing is stored, unless it is on the blacklist: so do `Never allow` and `do not allow`.
pub request_approval_allow :
    (before word after tool_address method : Text) (s : State)
    → to_lower_case word ≡ codes "allow"
    → listed (tool_method_of tool_address method) s.preferences.blacklist ≡ false
    → request_approval (ok (some (before ++ (word ++ after)))) tool_address method s
      ≡ (ok approve, s)
unfolding request_approval after_reply remember
request_approval_allow before word after tool_address method s e unlisted =
    let heard = lowered_allow before word after e in rw (unlisted, heard) (ground arith)
