-- ===== src/Gateway/Canonical/Forgetting.antt =====
-- Which values have the same canonical text.
use olane.Common.{
  ◌≡◌, refl, ap, ◌∙◌, ◌≢◌, Bool, true, false, List, [], ◌∷◌, Text, codes, text_eq, any,
  if◌then◌else◌, Result, Bool-cases, inl, inr,
}
use olane.Common.Json.{Json, undefined, array, object, Items, end, item, Fields, closed, field}
use olane.Gateway.Canonical.{
  Problem, Entry, is_undefined, insert, sort, join, members, enclose, canonicalize,
  canonicalize_items, canonicalize_fields, omit, entry_signing_payload,
}
use olane.Gateway.Canonical.Order.{insert_comm}

-- The same data, with the keys of each object, at any depth, in any order, and with or without keys
-- that have no value.
mutual
  pub data Same : Json → Json → Type 0 where
    same_value : {j : Json} → Same j j
    same_array : {xs ys : Items} → SameItems xs ys → Same (array xs) (array ys)
    same_object : {fs gs : Fields} → SameFields fs gs → Same (object fs) (object gs)

  pub data SameItems : Items → Items → Type 0 where
    same_end : SameItems end end
    same_item :
        {j k : Json} {xs ys : Items}
        → Same j k
        → SameItems xs ys
        → SameItems (item j xs) (item k ys)

  pub data SameFields : Fields → Fields → Type 0 where
    same_closed : SameFields closed closed
    same_field :
        {key : Text} {j k : Json} {fs gs : Fields}
        → Same j k
        → SameFields fs gs
        → SameFields (field key j fs) (field key k gs)
    swapped :
        {key label : Text} {j k : Json} {fs : Fields}
        → key ≢ label
        → SameFields (field key j (field label k fs)) (field label k (field key j fs))
    absent : {key : Text} {fs : Fields} → SameFields (field key undefined fs) fs
    same_trans : {fs gs hs : Fields} → SameFields fs gs → SameFields gs hs → SameFields fs hs

Same-is_undefined : (j k : Json) → Same j k → is_undefined j ≡ is_undefined k
Same-is_undefined j k same_value = refl
Same-is_undefined _ _ (same_array s) = refl
Same-is_undefined _ _ (same_object s) = refl

sort_if :
    (b : Bool) (e : Entry) (xs ys : List Entry)
    → sort xs ≡ sort ys
    → sort (if b then xs else e ∷ xs) ≡ sort (if b then ys else e ∷ ys)
unfolding sort
sort_if true e xs ys h = h
sort_if false e xs ys h = ap (insert e) h

sort_swapped :
    (b c : Bool) (k j : Text) (v w : Result Problem Text) (xs : List Entry)
    → k ≢ j
    → sort (if b then (if c then xs else (j, w) ∷ xs) else (k, v) ∷ (if c then xs else (j, w) ∷ xs))
      ≡ sort
          (if c then (if b then xs else (k, v) ∷ xs) else (j, w) ∷ (if b then xs else (k, v) ∷ xs))
unfolding sort
sort_swapped true c k j v w xs n = refl
sort_swapped false true k j v w xs n = refl
sort_swapped false false k j v w xs n = insert_comm k j v w (sort xs) n

module _ (stringify : Text → Text) where
  mutual
    unfolding canonicalize

    values-Same : (j k : Json) → Same j k → canonicalize stringify j ≡ canonicalize stringify k
    values-Same j k same_value = refl
    values-Same _ _ (same_array {xs} {ys} s) =
        ap (λ rs. enclose stringify b'[' b']' (join rs)) (items_same xs ys s)
    values-Same _ _ (same_object {fs} {gs} s) =
        ap (λ es. enclose stringify b'{' b'}' (join (members stringify es))) (fields_same fs gs s)

    items_same :
        (xs ys : Items)
        → SameItems xs ys
        → canonicalize_items stringify xs ≡ canonicalize_items stringify ys
    items_same _ _ same_end = refl
    items_same _ _ (same_item {j} {k} {xs} {ys} p q) =
        ap (◌∷◌ (canonicalize stringify j)) (items_same xs ys q)
        ∙ ap (λ r. r ∷ canonicalize_items stringify ys) (values-Same j k p)

    fields_same :
        (fs gs : Fields)
        → SameFields fs gs
        → sort (canonicalize_fields stringify fs) ≡ sort (canonicalize_fields stringify gs)
    fields_same _ _ same_closed = refl
    fields_same _ _ (same_field {key} {j} {k} {fs} {gs} p q) =
        rw (Same-is_undefined j k p, values-Same j k p)
          (sort_if (is_undefined k) (key, canonicalize stringify k)
            (canonicalize_fields stringify fs) (canonicalize_fields stringify gs)
            (fields_same fs gs q))
    fields_same _ _ (swapped {key} {label} {j} {k} {fs} n) =
        sort_swapped (is_undefined j) (is_undefined k) key label (canonicalize stringify j)
          (canonicalize stringify k) (canonicalize_fields stringify fs) n
    fields_same _ _ absent = refl
    fields_same _ _ (same_trans {fs} {gs} {hs} p q) = fields_same fs gs p ∙ fields_same gs hs q

-- Two values that differ in the order of the keys of their objects, at any depth, or in keys without a
-- value, have the same canonical text, or throw the same error, whatever `JSON.stringify` makes of a
-- string.
pub canonicalize-Same :
    (stringify : Text → Text) (j k : Json)
    → Same j k
    → canonicalize stringify j ≡ canonicalize stringify k
canonicalize-Same stringify j k s = values-Same stringify j k s

same_fields : (fs : Fields) → SameFields fs fs
same_fields closed = same_closed
same_fields (field key j fs) = same_field same_value (same_fields fs)

omit-SameFields :
    (ks : List Text) (fs gs : Fields) → SameFields fs gs → SameFields (omit ks fs) (omit ks gs)
unfolding omit
omit-SameFields ks _ _ same_closed = same_closed
omit-SameFields ks _ _ (same_field {key} {j} {k} {fs} {gs} p q) =
    elim (Bool-cases (any (text_eq key) ks)) [
      | inl e ↦ rw e (omit-SameFields ks fs gs q)
      | inr e ↦ rw e (same_field p (omit-SameFields ks fs gs q))
    ]
omit-SameFields ks _ _ (swapped {key} {label} {j} {k} {fs} n) =
    elim (Bool-cases (any (text_eq key) ks)) [
      | inl e ↦ elim (Bool-cases (any (text_eq label) ks)) [
        | inl f ↦ rw (e, f) (same_fields (omit ks fs))
        | inr f ↦ rw (e, f) (same_fields (field label k (omit ks fs)))
      ]
      | inr e ↦ elim (Bool-cases (any (text_eq label) ks)) [
        | inl f ↦ rw (e, f) (same_fields (field key j (omit ks fs)))
        | inr f ↦ rw (e, f) (swapped n)
      ]
    ]
omit-SameFields ks _ _ (absent {key} {fs}) = elim (Bool-cases (any (text_eq key) ks)) [
  | inl e ↦ rw e (same_fields (omit ks fs))
  | inr e ↦ rw e absent
]
omit-SameFields ks _ _ (same_trans {fs} {gs} {hs} p q) =
    same_trans (omit-SameFields ks fs gs p) (omit-SameFields ks gs hs q)

-- What an operator signs does not depend on the order of the entry's keys, on the signature, or on
-- when the entry was verified: a signer that has neither of these computes the same bytes.
pub entry_signing_payload-Same :
    (stringify : Text → Text) (signature verified_at : Json) (fs gs : Fields)
    → SameFields fs
        (field (codes "signature") signature (field (codes "verifiedAt") verified_at gs))
    → entry_signing_payload stringify fs ≡ entry_signing_payload stringify gs
unfolding entry_signing_payload omit text_eq
entry_signing_payload-Same stringify signature verified_at fs gs s =
    canonicalize-Same stringify _ _
      (same_object (omit-SameFields (codes "signature" ∷ codes "verifiedAt" ∷ []) fs _ s))
