-- ===== src/Server/Validation/Sanitize.antt =====
-- What the copied copy of the parameters holds.
use olane.Common.{
  ◌≡◌, ◌≢◌, ◌↔◌, refl, ap, ◌∙◌, Bool, false, ◌||◌, [], ◌∷◌, codes, to_lower_case, any, arith,
  Option, none, some, Text, text_eq, text_eq_iff, if◌then◌else◌, Bool-cases, inl, inr,
}
use olane.Common.Json.{
  Json, undefined, null, boolean, number, string, non_finite, other, array, object, Items, end,
  item, Fields, closed, field,
}
use olane.Server.Validation.{
  blocked_methods, is_dangerous, sanitize_params, sanitize_items, sanitize_fields,
}

-- None of the keys that lead to a prototype, in whatever case it is written.
pub record IsSafe (key : Text) : Type 0 where
  pub not_proto : to_lower_case key ≢ codes "__proto__"
  pub not_constructor : to_lower_case key ≢ codes "constructor"
  pub not_prototype : to_lower_case key ≢ codes "prototype"

none_of :
    (a b c : Text) (x : Text)
    → any (text_eq x) (a ∷ b ∷ c ∷ []) ≡ false
    → (x ≢ a) × (x ≢ b) × (x ≢ c)
none_of a b c x h = ground (arith, text_eq_iff x a, text_eq_iff x b, text_eq_iff x c)

none_of_all :
    (a b c : Text) (x : Text) → x ≢ a → x ≢ b → x ≢ c → any (text_eq x) (a ∷ b ∷ c ∷ []) ≡ false
none_of_all a b c x h k l = ground (arith, text_eq_iff x a, text_eq_iff x b, text_eq_iff x c)

or_false : (a b : Bool) → (a || b) ≡ false → b ≡ false
or_false a b h = ground arith

both_false : (a b : Bool) → a ≡ false → b ≡ false → (a || b) ≡ false
both_false a b h k = ground arith

lowered_keys :
    (to_lower_case (codes "__proto__") ≡ codes "__proto__")
    × (to_lower_case (codes "constructor") ≡ codes "constructor")
    × (to_lower_case (codes "prototype") ≡ codes "prototype")
unfolding to_lower_case
lowered_keys = (refl, refl, refl)

-- The test of the code is this one.
IsSafe-iff : (key : Text) → (is_dangerous key ≡ false) ↔ IsSafe key
unfolding is_dangerous
IsSafe-iff key = (
  λ h.
      let (a, b, c) =
        none_of (codes "__proto__") (codes "constructor") (codes "prototype") (to_lower_case key) (
          or_false (any (text_eq key) blocked_methods)
            (any (text_eq (to_lower_case key)) blocked_methods) h) in
      record { not_proto = a; not_constructor = b; not_prototype = c },
  λ s.
      let (p, c, t) = lowered_keys in
      both_false (any (text_eq key) blocked_methods)
        (any (text_eq (to_lower_case key)) blocked_methods)
        (none_of_all (codes "__proto__") (codes "constructor") (codes "prototype") key
          (λ e. s.not_proto (ap to_lower_case e ∙ p))
          (λ e. s.not_constructor (ap to_lower_case e ∙ c))
          (λ e. s.not_prototype (ap to_lower_case e ∙ t)))
        (none_of_all (codes "__proto__") (codes "constructor") (codes "prototype")
          (to_lower_case key) s.not_proto s.not_constructor s.not_prototype),
)

-- No object has such a key, at any depth.
abbrev mutual
  pub IsClean : Json → Type 0
  IsClean (array items) = IsCleanItems items
  IsClean (object fields) = IsCleanFields fields
  IsClean primitive = Unit

  pub IsCleanItems : Items → Type 0
  IsCleanItems end = Unit
  IsCleanItems (item j items) = IsClean j × IsCleanItems items

  pub IsCleanFields : Fields → Type 0
  IsCleanFields closed = Unit
  IsCleanFields (field key j fields) = IsSafe key × IsClean j × IsCleanFields fields

mutual
  unfolding sanitize_params

  copy-IsClean : (j : Json) → IsClean (sanitize_params j)
  copy-IsClean undefined = tt
  copy-IsClean null = tt
  copy-IsClean (boolean b) = tt
  copy-IsClean (number t) = tt
  copy-IsClean (string t) = tt
  copy-IsClean non_finite = tt
  copy-IsClean (other t) = tt
  copy-IsClean (array items) = items-IsClean items
  copy-IsClean (object fields) = fields-IsClean fields

  items-IsClean : (items : Items) → IsCleanItems (sanitize_items items)
  items-IsClean end = tt
  items-IsClean (item j items) = (copy-IsClean j, items-IsClean items)

  fields-IsClean : (fields : Fields) → IsCleanFields (sanitize_fields fields)
  fields-IsClean closed = tt
  fields-IsClean (field key j fields) = elim (Bool-cases (is_dangerous key)) [
    | inl e ↦ rw e (fields-IsClean fields)
    | inr e ↦ rw e ((IsSafe-iff key).0 e, copy-IsClean j, fields-IsClean fields)
  ]

mutual
  unfolding sanitize_params

  clean_copy : (j : Json) → IsClean j → sanitize_params j ≡ j
  clean_copy undefined h = refl
  clean_copy null h = refl
  clean_copy (boolean b) h = refl
  clean_copy (number t) h = refl
  clean_copy (string t) h = refl
  clean_copy non_finite h = refl
  clean_copy (other t) h = refl
  clean_copy (array items) h = ap array (clean_items items h)
  clean_copy (object fields) h = ap object (clean_fields fields h)

  clean_items : (items : Items) → IsCleanItems items → sanitize_items items ≡ items
  clean_items end h = refl
  clean_items (item j items) (p, h) = rw (clean_copy j p, clean_items items h) refl

  clean_fields : (fields : Fields) → IsCleanFields fields → sanitize_fields fields ≡ fields
  clean_fields closed h = refl
  clean_fields (field key j fields) (e, p, h) =
      rw ((IsSafe-iff key).1 e, clean_copy j p, clean_fields fields h) refl

-- `fields[key]`, if it is there.
abbrev pub get_field : Text → Fields → Option Json
get_field key closed = none
get_field key (field k j fields) = if text_eq k key then some j else get_field key fields

abbrev pub copied : Option Json → Option Json
copied none = none
copied (some j) = some (sanitize_params j)

-- Every field that is not dangerous is in the copy, with its own value copied.
sanitize_params_keeps :
    (key : Text) (fields : Fields)
    → is_dangerous key ≡ false
    → get_field key (sanitize_fields fields) ≡ copied (get_field key fields)
unfolding sanitize_fields
sanitize_params_keeps key closed h = refl
sanitize_params_keeps key (field k j fields) h = elim (Bool-cases (text_eq k key)) [
  | inl e ↦ let safe : is_dangerous k ≡ false = rw ((text_eq_iff k key).0 e) h in rw (safe, e) refl
  | inr e ↦ elim (Bool-cases (is_dangerous k)) [
    | inl d ↦ rw (d, e) (sanitize_params_keeps key fields h)
    | inr d ↦ rw (d, e) (sanitize_params_keeps key fields h)
  ]
]

-- The copy of any parameters has, at any depth, none of the keys `__proto__`, `constructor` and
-- `prototype`, in whatever case it is written; parameters that have none already are copied as they
-- are; and every other field of an object is in the copy, with its own value copied so.
pub sanitize_params_lem :
    (j : Json) (fields : Fields) (key : Text)
    → IsClean (sanitize_params j)
      × (IsClean j → sanitize_params j ≡ j)
      × (IsSafe key → get_field key (sanitize_fields fields) ≡ copied (get_field key fields))
sanitize_params_lem j fields key =
    (copy-IsClean j, clean_copy j, λ s. sanitize_params_keeps key fields ((IsSafe-iff key).1 s))
