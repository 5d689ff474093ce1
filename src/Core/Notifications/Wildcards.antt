-- ===== src/Core/Notifications/Wildcards.antt =====
-- What the filters accept, where the path of an address is a string and not a list of segments.
use olane.Common.{
  ◌+◌, ◌<◌, ◌≡◌, refl, ap, ◌∙◌, ◌≢◌, true, false, [], ◌∷◌, ◌++◌, append_assoc, Text, codes, text_eq,
  text_eq-false, strip_prefix, strip_prefix-append, starts_with, replace, replace_at_start, split,
  cons_head, length, ltb, ◌==◌, arith,
}
use olane.Core.Address.{Address, paths, scheme}
use olane.Core.Notifications.Filters.{
  of_node, Regex, pattern_paths, match_segments, address_matches, regex_parts, all_match,
  children_only, descendants_only,
}

child_pattern : (us : Text) → match_segments us (codes "leader" ∷ codes "*" ∷ []) ≡ false
unfolding match_segments text_eq
child_pattern [] = refl
child_pattern (u ∷ us) = ground arith

-- The pattern `o://leader/*` matches no address but the one that is spelled like it, so no child of
-- the leader.
pub address_matches_child :
    (regex : Regex) (a : Address)
    → a.value ≢ codes "o://leader/*"
    → address_matches regex a (codes "o://leader/*") ≡ false
unfolding address_matches starts_with strip_prefix regex_parts pattern_paths replace split cons_head
address_matches_child regex a h =
    rw (text_eq-false a.value (codes "o://leader/*") h) (child_pattern (paths a))

paths-below : (a : Address) (p : Text) → a.value ≡ scheme ++ p → paths a ≡ p
unfolding paths
paths-below a p e = rw e (replace_at_start scheme [] (scheme ++ p) p (strip_prefix-append scheme p))

length-append : (s t : Text) → length (s ++ t) ≡ length s + length t
length-append [] t = omega arith
length-append (c ∷ s) t = omega (arith, length-append s t)

all_match-append : (s t : Text) → all_match s (s ++ t) ≡ true
unfolding all_match
all_match-append [] t = refl
all_match-append (c ∷ s) t = ground (arith, all_match-append s t)

length_positive : (t : Text) → t ≢ [] → 0 < length t
length_positive [] h = absurd (h refl)
length_positive (c ∷ t) h = omega arith

module _ (a n : Address) (p : Text) (t : Text) (e : a.value ≡ scheme ++ p)
    (f : n.value ≡ a.value ++ t) where
  node_paths : paths n ≡ p ++ t
  node_paths = paths-below n (p ++ t) (f ∙ (ap (λ v. v ++ t) e ∙ append_assoc scheme p t))

  -- A node is never taken for a direct child of its parent if its name, behind the slash, is not empty.
  pub children_only_misses :
      (s : Text) (event_type : Text)
      → t ≡ b'/' ∷ s
      → s ≢ []
      → children_only (record { type = event_type; subject = of_node n }) a ≡ false
  unfolding children_only
  children_only_misses s event_type g h =
      let pos = length_positive s h in
      let longer : (length (paths n) == length (paths a) + 1) ≡ false =
        rw (node_paths, paths-below a p e, length-append p t, g) (ground arith) in
      rw longer refl

  -- Any longer text is taken for a descendant, also that of a sibling whose name begins alike.
  pub descendants_only_prefix :
      (event_type : Text)
      → t ≢ []
      → descendants_only (record { type = event_type; subject = of_node n }) a ≡ true
  unfolding descendants_only
  descendants_only_prefix event_type h =
      let pos = length_positive t h in
      let longer : ltb (length (paths a)) (length (paths n)) ≡ true =
        rw (node_paths, paths-below a p e, length-append p t) (ground arith) in
      rw longer (rw (node_paths, paths-below a p e) (all_match-append p t))
