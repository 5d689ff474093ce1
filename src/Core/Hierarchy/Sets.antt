-- ===== src/Core/Hierarchy/Sets.antt =====
-- The children and the parents are sets of addresses: no address twice, and adding and removing do
-- to each address what they say.
use olane.Common.{
  ◌≡◌, refl, ◌∙◌, Bool, false, not, ◌&&◌, ◌||◌, List, [], ◌∷◌, some, Text, text_eq, text_eq_iff,
  text_eq_refl, any, keep_if, Bool-cases, inl, inr, arith,
}
use olane.Core.Address.{Address, to_static_address}
use olane.Core.Hierarchy.{
  Hierarchy, dedup_from, deduplicate, remove_value, remove_child, add_child, get_child, add_parent,
  remove_parent,
}

-- An address of this text is in the list.
unfoldable pub has : Text → List Address → Bool
has v [] = false
has v (a ∷ rest) = text_eq a.value v || has v rest

abbrev pub Distinct : List Address → Type 0
Distinct [] = Unit
Distinct (a ∷ rest) = (has a.value rest ≡ false) × Distinct rest

seen : List Text → Text → Bool
seen added v = any (text_eq v) added

has-dedup_from :
    (v : Text) (added : List Text) (rest : List Address)
    → has v (dedup_from added rest) ≡ (has v rest && not (seen added v))
unfolding has dedup_from seen
has-dedup_from v added [] = refl
has-dedup_from v added (a ∷ rest) = ground (
  arith,
  has-dedup_from v added rest,
  has-dedup_from v (a.value ∷ added) rest,
  text_eq_iff a.value v,
  text_eq_iff v a.value,
)

Distinct-dedup_from : (added : List Text) (rest : List Address) → Distinct (dedup_from added rest)
unfolding dedup_from
Distinct-dedup_from added [] = tt
Distinct-dedup_from added (a ∷ rest) = elim (Bool-cases (any (text_eq a.value) added)) [
  | inl e ↦ rw e (Distinct-dedup_from added rest)
  | inr e ↦ rw e (
    has-dedup_from a.value (a.value ∷ added) rest
        ∙ unfold seen in ground (arith, text_eq_refl a.value),
    Distinct-dedup_from (a.value ∷ added) rest,
  )
]

has-deduplicate : (v : Text) (rest : List Address) → has v (deduplicate rest) ≡ has v rest
unfolding deduplicate seen
has-deduplicate v rest = ground (arith, has-dedup_from v [] rest)

has-keep_if :
    (v w : Text) (rest : List Address)
    → has v (keep_if (λ a. not (text_eq a.value w)) rest) ≡ (has v rest && not (text_eq v w))
unfolding has
has-keep_if v w [] = refl
has-keep_if v w (a ∷ rest) =
    ground
      (arith, has-keep_if v w rest, text_eq_iff a.value v, text_eq_iff a.value w, text_eq_iff v w)

has-remove_value :
    (v w : Text) (rest : List Address)
    → has v (remove_value w rest) ≡ (has v rest && not (text_eq v w))
unfolding remove_value
has-remove_value v w rest =
    has-deduplicate v (keep_if (λ a. not (text_eq a.value w)) rest) ∙ has-keep_if v w rest

-- After adding a child it is there, every other child is there exactly if it was, and no child is
-- listed twice, whatever the list was before.
pub add_child_lem :
    (a : Address) (h : Hierarchy) (v : Text)
    → (has v (add_child a h).children ≡ (text_eq a.value v || has v h.children))
      × Distinct (add_child a h).children
unfolding add_child remove_child deduplicate
add_child_lem a h v = (
  has-deduplicate v (a ∷ remove_value a.value h.children)
      ∙ (unfold has in
          ground (
            arith,
            has-remove_value v a.value h.children,
            text_eq_iff v a.value,
            text_eq_iff a.value v,
          )),
  Distinct-dedup_from [] (a ∷ remove_value a.value h.children),
)

-- After removing a child it is gone, every other child is there exactly if it was, and no child is
-- listed twice.
pub remove_child_lem :
    (w : Text) (h : Hierarchy) (v : Text)
    → (has v (remove_child w h).children ≡ (has v h.children && not (text_eq v w)))
      × Distinct (remove_child w h).children
unfolding remove_child remove_value deduplicate
remove_child_lem w h v = (
  has-remove_value v w h.children,
  Distinct-dedup_from [] (keep_if (λ a. not (text_eq a.value w)) h.children),
)

-- After adding a parent it is there, and after removing one it is gone; every other parent is there
-- exactly if it was, and no parent is listed twice.
pub parents_lem :
    (a : Address) (w : Text) (h : Hierarchy) (v : Text)
    → (has v (add_parent a h).parents ≡ (text_eq a.value v || has v h.parents))
      × (has v (remove_parent w h).parents ≡ (has v h.parents && not (text_eq v w)))
      × Distinct (add_parent a h).parents
      × Distinct (remove_parent w h).parents
unfolding add_parent remove_parent remove_value deduplicate
parents_lem a w h v = (
  has-deduplicate v (a ∷ h.parents) ∙ (unfold has in refl),
  has-remove_value v w h.parents,
  Distinct-dedup_from [] (a ∷ h.parents),
  Distinct-dedup_from [] (keep_if (λ b. not (text_eq b.value w)) h.parents),
)

-- The child that was added last is the one that is found by its static name, with its transports,
-- even if another child has the same last segment.
pub get_child-add_child :
    (a b : Address) (h : Hierarchy)
    → (to_static_address b).value ≡ (to_static_address a).value
    → get_child b (add_child a h) ≡ some a
unfolding get_child add_child remove_child deduplicate dedup_from
get_child-add_child a b h e =
    ground (arith, text_eq_iff (to_static_address a).value (to_static_address b).value)
