-- ===== src/Node/Resolvers/Claims.antt =====
-- Which addresses the gateway of the leader at olane claims.
use olane.Common.{
  ◌≡◌, refl, true, false, [], ◌∷◌, ◌++◌, Text, codes, text_eq, starts_with-append, replace,
  replace_at_start, strip_prefix-append, any,
}
use olane.Core.Address.{Address, leader, scheme, paths, custom_transports, set_transports}
use olane.Node.Resolvers.{olane_transport, resolve_olane_gateway}

-- Every address whose first segment begins with `olane`, so also that of another gateway, goes to the
-- leader at olane, unless the target has the custom transport `/olane`: with it, the address is handed
-- on as it is.
pub resolve_olane_gateway_lem :
    (a target : Address) (rest : Text)
    → a.value ≡ scheme ++ (codes "olane" ++ rest)
    → (any (λ t. text_eq (codes "/olane") t.value) (custom_transports target) ≡ false
        → resolve_olane_gateway a target ≡ set_transports (olane_transport ∷ []) leader)
      × (any (λ t. text_eq (codes "/olane") t.value) (custom_transports target) ≡ true
          → resolve_olane_gateway a target ≡ a)
unfolding resolve_olane_gateway paths
resolve_olane_gateway_lem a target rest e =
    let path : replace scheme [] a.value ≡ codes "olane" ++ rest = rw e (
      replace_at_start scheme [] (scheme ++ (codes "olane" ++ rest)) (codes "olane" ++ rest)
        (strip_prefix-append scheme (codes "olane" ++ rest))) in
    (
      λ h. rw (path, starts_with-append (codes "olane") rest, h) refl,
      λ h. rw (path, starts_with-append (codes "olane") rest, h) refl,
    )
