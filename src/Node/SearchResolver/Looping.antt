-- ===== src/Node/SearchResolver/Looping.antt =====
-- A search that finds the node itself.
use olane.Common.{
  ◌<◌, ◌≡◌, refl, sym, ap, ◌∙◌, true, false, List, [], ◌∷◌, ◌++◌, text_eq, text_eq_refl, length,
  length-append, if◌then◌else◌, replace, replace_short, ok, ◌==◌, arith,
}
use olane.Core.Address.{Address, registry_value, protocol, proto, scheme, set_transports}
use olane.Core.Address.Hop.{next_self}
use olane.Node.SearchResolver.{
  SearchResult, Node, filter_search_results, select_result, map_transports,
  resolve_next_hop_transports, next_is_same, determine_next_hop, is_empty, extra_params,
  resolved_target, selected, resolve,
}
use olane.Node.SearchResolver.Path.{if_not, if_false}

next_is_same_self : (a target : Address) → a.value ≡ target.value → next_is_same a target ≡ true
unfolding next_is_same protocol
next_is_same_self a target e =
    let same : protocol a ≡ protocol target = ap (replace scheme proto) e in
    let longer : length (protocol target) < length (protocol a ++ b'/' ∷ []) =
      rw same (omega (arith, length-append {0} (protocol target) (b'/' ∷ []))) in
    rw
      (
        replace_short (protocol a ++ b'/' ∷ []) [] (protocol target) longer,
        e,
        text_eq_refl (protocol target),
        text_eq_refl target.value,
      )
      (ground arith)

hop_self :
    (node : Node) (target : Address) (r : SearchResult)
    → node.address.value ≡ target.value
    → let own =
        set_transports
          (resolve_next_hop_transports node.address (map_transports r) node)
          node.address in
      determine_next_hop node target r ≡ (own, record node { address = own })
unfolding determine_next_hop
hop_self node target r e =
    ap
      (λ h. (
        set_transports (resolve_next_hop_transports h (map_transports r) node) h,
        if next_is_same node.address target
            then record node {
              address = set_transports (resolve_next_hop_transports h (map_transports r) node) h;
            }
            else node,
      ))
      (next_self node.address target e)
    ∙ rw (next_is_same_self node.address target e) refl

-- If the first answer of the registry is the address of the node that asks, and nothing is to be added
-- to it, the next hop is the node itself; and the node's own transports are replaced, by those of the
-- leader if the node has the leader's address, by those of a child with the same last segment, or by
-- those of the registry.
pub resolve_own :
    (node : Node) (a target : Address) (r : SearchResult) (rs : List SearchResult)
    → node.is_running ≡ true
    → a.transports ≡ []
    → text_eq r.static_address registry_value ≡ false
    → r.address ≡ node.address.value
    → is_empty (extra_params a) ≡ true
    → let own =
        set_transports
          (resolve_next_hop_transports node.address (map_transports r) node)
          node.address in
      let (route, after) = resolve node a target (ok (r ∷ rs)) in
      (route.next_hop_address ≡ own) × (after ≡ record node { address = own })
unfolding resolve filter_search_results resolved_target
resolve_own node a target r rs f t u v n =
    let kept : (resolved_target a r).value ≡ r.address = rw n refl in
    let hop = hop_self node (resolved_target a r) r (sym v ∙ sym kept) in
    let e =
      if_not _ _ (length a.transports == 0) (rw t refl)
      ∙ if_not _ _ node.is_running f
      ∙ ap (λ o. selected node a target (select_result o))
          (if_false _ _ (text_eq r.static_address registry_value) u) in
    (ap (λ q. q.0.next_hop_address) e ∙ ap (λ q. q.0) hop, ap (λ q. q.1) e ∙ ap (λ q. q.1) hop)
