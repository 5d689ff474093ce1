-- ===== src/Node/Resolvers/Children.antt =====
-- The way down through the children that a node knows.
use olane.Common.{
  ◌≡◌, refl, sym, ap, ◌∙◌, Bool, true, false, List, [], ◌∷◌, ◌++◌, append_assoc, none, some, Text,
  codes, text_eq, text_eq-length, length-append, replace, replace_at_start, strip_prefix-append,
  split_head-split, Lacks, ok, err, includes, arith,
}
use olane.Core.Address.{Address, address, scheme, leader_value, paths}
use olane.Core.Address.Hop.{join, StopsAt-join}
use olane.Core.Hierarchy.{Hierarchy, get_child}
use olane.Node.Resolvers.{child_or, resolve_node}

paths-scheme : (a : Address) (t : Text) → a.value ≡ scheme ++ t → paths a ≡ t
unfolding paths
paths-scheme a t e =
    rw e (replace_at_start scheme [] (scheme ++ t) t (strip_prefix-append scheme t))

behind : (p rest : Text) → replace (p ++ b'/' ∷ []) [] (p ++ b'/' ∷ rest) ≡ rest
behind p rest = rw (sym (append_assoc p (b'/' ∷ []) rest)) (
    replace_at_start (p ++ b'/' ∷ []) [] ((p ++ b'/' ∷ []) ++ rest) rest
      (strip_prefix-append (p ++ b'/' ∷ []) rest))

not_whole : (p rest : Text) → text_eq rest (p ++ b'/' ∷ rest) ≡ false
not_whole p rest =
    text_eq-length rest (p ++ b'/' ∷ rest)
      (λ e. let l = length-append {0} p (b'/' ∷ rest) in omega arith)

module _ (own a target : Address) (is_leader : Bool) (h : Hierarchy) (p s : Text)
    (ys : List Text) where
  resolve_node-child_or :
      own.value ≡ scheme ++ p
      → target.value ≡ scheme ++ (p ++ b'/' ∷ (s ++ join ys))
      → Lacks b'/' s
      → resolve_node own is_leader h a target
        ≡ child_or target.value a (get_child (address (scheme ++ s)) h)
  unfolding resolve_node
  resolve_node-child_or e f l =
      rw
        (
          paths-scheme own p e,
          paths-scheme target (p ++ b'/' ∷ (s ++ join ys)) f,
          behind p (s ++ join ys),
          not_whole p (s ++ join ys),
          split_head-split b'/' s (join ys) l (StopsAt-join ys),
        )
        refl

-- Below the node itself, a target is reached through the child that has the next segment of its path
-- for a name. If no child has it, a call that was sent by way of the leader's address is answered by
-- the error that nothing was found, and any other is handed on as it is.
pub resolve_node_lem :
    (own a target : Address) (is_leader : Bool) (h : Hierarchy) (p s : Text) (ys : List Text)
    → own.value ≡ scheme ++ p
    → target.value ≡ scheme ++ (p ++ b'/' ∷ (s ++ join ys))
    → Lacks b'/' s
    → let child = get_child (address (scheme ++ s)) h in
      let hop = resolve_node own is_leader h a target in
      ((c : Address) → child ≡ some c → hop ≡ ok c)
      × (child ≡ none
          → includes leader_value a.value ≡ true
          → hop ≡ err (target.value ++ codes " node not found."))
      × (child ≡ none → includes leader_value a.value ≡ false → hop ≡ ok a)
resolve_node_lem own a target is_leader h p s ys e f l =
    let hop = resolve_node-child_or own a target is_leader h p s ys e f l in
    (
      λ c q. hop ∙ ap (child_or target.value a) q,
      λ q w. hop ∙ ap (child_or target.value a) q ∙ rw w refl,
      λ q w. hop ∙ ap (child_or target.value a) q ∙ rw w refl,
    )
