-- ===== src/Node/SearchResolver/Path.antt =====
-- The way down to a found address.
use olane.Common.{
  ◌≡◌, ◌≢◌, refl, sym, ap, ◌∙◌, Bool, true, false, not, List, [], ◌∷◌, ◌++◌, append_assoc, Text,
  text_eq, text_eq-false, length, if◌then◌else◌, replace_at_start, strip_prefix-append,
  split_head-split, Lacks, All, ok, ◌==◌, Bool-cases, inl, inr, arith,
}
use olane.Core.Address.{
  Address, address, Transport, leader_value, registry_value, scheme, paths, to_root_address,
  set_transports, next,
}
use olane.Core.Address.Hop.{IsSegment, join, StopsAt-join}
use olane.Core.Address.Route.{below, below-append, next-below}
use olane.Core.Hierarchy.{get_child}
use olane.Node.SearchResolver.{
  SearchResult, Node, filter_search_results, select_result, map_transports, transports_of,
  resolve_next_hop_transports, next_is_same, determine_next_hop, ends_with, is_empty, extra_params,
  resolved_target, selected, resolve,
}

-- The text `o://name/s₁/s₂/…`.
abbrev pub named : Text → List Text → Text
named name ss = scheme ++ (name ++ join ss)

root-named :
    (a : Address) (name : Text) (ss : List Text)
    → Lacks b'/' name
    → a.value ≡ named name ss
    → (to_root_address a).value ≡ scheme ++ name
unfolding to_root_address paths
root-named a name ss l e =
    rw
      (
        e,
        replace_at_start scheme [] (named name ss) (name ++ join ss)
            (strip_prefix-append scheme (name ++ join ss)),
      )
      (ap (λ t. scheme ++ t) (split_head-split b'/' name (join ss) l (StopsAt-join ss)))

extra-named :
    (a : Address) (name : Text) (ss : List Text)
    → Lacks b'/' name
    → a.value ≡ named name ss
    → extra_params a ≡ join ss
unfolding extra_params
extra-named a name ss l e =
    rw (root-named a name ss l e, e, sym (append_assoc scheme name (join ss)))
      (replace_at_start (scheme ++ name) [] ((scheme ++ name) ++ join ss) (join ss)
        (strip_prefix-append (scheme ++ name) (join ss)))

-- `next` returns its own argument where it is said to.
pub next-same : (a target : Address) → next_is_same a target ≡ true → next a target ≡ a
unfolding next next_is_same
next-same a target h = ground arith

too_long : (t u : Text) → t ≢ t ++ b'/' ∷ u
too_long [] u q = cc
too_long (c ∷ t) u q = too_long t u cc

longer : (xs : List Text) (s : Text) → below (xs ++ s ∷ []) ≢ below xs
unfolding join
longer xs s e = too_long (below xs) (s ++ []) (sym e ∙ below-append xs (s ∷ []))

nonempty-join : (ss : List Text) → ss ≢ [] → is_empty (join ss) ≡ false
unfolding join
nonempty-join [] q = absurd (q refl)
nonempty-join (t ∷ ts) q = refl

module _ (xs ys zs : List Text) (s name : Text) (a : Address) (r : SearchResult) where
  target-named :
      a.value ≡ named name zs
      → Lacks b'/' name
      → r.address ≡ below (xs ++ s ∷ ys)
      → zs ≢ []
      → ends_with (join zs) r.address ≡ false
      → (resolved_target a r).value ≡ below (xs ++ s ∷ (ys ++ zs))
  unfolding resolved_target
  target-named e l p n d =
      rw (extra-named a name zs l e, d, nonempty-join zs n)
        (ap (λ t. t ++ join zs) p
          ∙ sym (below-append (xs ++ s ∷ ys) zs)
          ∙ ap below (append_assoc xs (s ∷ ys) zs))

  -- The hop towards a target below the node, and that the node keeps its own address.
  hop-below :
      (node : Node) (target : Address)
      → node.address.value ≡ below xs
      → IsSegment s
      → All IsSegment ys
      → target.value ≡ below (xs ++ s ∷ ys)
      → let hop = address (below (xs ++ s ∷ [])) in
        determine_next_hop node target r
        ≡ (set_transports (resolve_next_hop_transports hop (map_transports r) node) hop, node)
  unfolding determine_next_hop
  hop-below node target e p h t =
      let step = next-below xs s ys node.address target p h e t in
      let fresh : next_is_same node.address target ≡ false =
        (elim (Bool-cases (next_is_same node.address target)) [
          | inl q ↦
              absurd
                (longer xs s (ap (λ b. b.value) (sym step ∙ next-same node.address target q) ∙ e))
          | inr q ↦ q
        ]) in
      rw (fresh, step) refl

pub if_not : {A : Type 0} (x y : A) (b : Bool) → b ≡ true → (if not b then x else y) ≡ y
if_not x y true e = refl
if_not x y false e = absurd (cc)

pub if_false : {A : Type 0} (x y : A) (b : Bool) → b ≡ false → (if not b then x else y) ≡ x
if_false x y true e = absurd (cc)
if_false x y false e = refl

not_leader : (xs : List Text) (s : Text) → text_eq (below (xs ++ s ∷ [])) leader_value ≡ false
unfolding join
not_leader [] s =
    text_eq-false (below (s ∷ [])) leader_value (λ e. too_long leader_value (s ++ []) (sym e))
not_leader (x ∷ xs) s =
    text_eq-false (below (x ∷ (xs ++ s ∷ []))) leader_value
      (λ e. too_long leader_value (x ++ join (xs ++ s ∷ [])) (sym e))

hop_transports :
    (xs : List Text) (s : Text) (ts : List Transport) (node : Node)
    → let hop = address (below (xs ++ s ∷ [])) in
      resolve_next_hop_transports hop ts node ≡ transports_of (get_child hop node.hierarchy) ts
unfolding resolve_next_hop_transports
hop_transports xs s ts node = rw (not_leader xs s) refl

-- A node at `xs` below the leader asks for `o://name/zs`, and the registry's first answer, which is not
-- a registry, is that the name lives at `xs/s/ys`. Then the target is `xs/s/ys/zs`, and the next hop is
-- the node's child `xs/s`, with the transports that the hierarchy has for this child, and those that the
-- registry has for the found node if it has none. The node itself stays as it is. The segments from `s`
-- on are not empty, without a slash and not the letter o; and `zs` is what the found address does not
-- already end with.
pub resolve_below :
    (xs ys zs : List Text) (s name : Text) (a target : Address) (r : SearchResult) (node : Node)
    (rs : List SearchResult)
    → node.address.value ≡ below xs
    → node.is_running ≡ true
    → a.value ≡ named name zs
    → a.transports ≡ []
    → Lacks b'/' name
    → IsSegment s
    → All IsSegment (ys ++ zs)
    → text_eq r.static_address registry_value ≡ false
    → r.address ≡ below (xs ++ s ∷ ys)
    → zs ≢ []
    → ends_with (join zs) r.address ≡ false
    → let child = address (below (xs ++ s ∷ [])) in
      resolve node a target (ok (r ∷ rs)) ≡ (
        record {
          next_hop_address = record {
            value = child.value;
            transports = transports_of (get_child child node.hierarchy) (map_transports r);
          };
          target_address = record {
            value = below (xs ++ s ∷ (ys ++ zs));
            transports = map_transports r;
          };
        },
        node,
      )
unfolding resolve filter_search_results set_transports resolved_target
resolve_below xs ys zs s name a target r node rs e f g t l p h u v n d =
    let value = target-named xs ys zs s name a r g l v n d in
    let resolved = resolved_target a r in
    let child = address (below (xs ++ s ∷ [])) in
    let hop = hop-below xs (ys ++ zs) zs s name a r node resolved e p h value in
    if_not _ _ (length a.transports == 0) (rw t refl)
    ∙ if_not _ _ node.is_running f
    ∙ ap (λ o. selected node a target (select_result o))
        (if_false _ _ (text_eq r.static_address registry_value) u)
    ∙ ap (λ q. (record { next_hop_address = q.0; target_address = resolved }, q.1)) hop
    ∙ ap
        (λ ts.
          (record { next_hop_address = set_transports ts child; target_address = resolved }, node))
        (hop_transports xs s (map_transports r) node)
    ∙ ap
        (λ w. (
          record {
            next_hop_address =
                set_transports (transports_of (get_child child node.hierarchy) (map_transports r))
                  child;
            target_address = record { value = w; transports = map_transports r };
          },
          node,
        ))
        value
