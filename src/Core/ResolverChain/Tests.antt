-- ===== src/Core/ResolverChain/Tests.antt =====
-- Witnesses of the resolver chain.
use olane.Common.{◌≡◌, true, false, ◌||◌, [], ◌∷◌, none, some, Text, codes, ok, ◌>>=◌}
use olane.Core.Address.{libp2p, leader, registry}
use olane.Core.ResolverChain.{
  Resolver, add_resolver, supports_address, apply, resolve_from, resolve,
}
use olane.Core.ResolverChain.Order.{add_resolver_lem}

-- Sends everything to the leader, for the target as it is.
abbrev to_leader : Resolver Text
to_leader = record {
  transport_types = libp2p ∷ [];
  resolve = λ a target request.
      ok (record { next_hop_address = leader; target_address = none; request_override = none });
}

-- Passes the address on, with a request of its own.
abbrev rewriter : Resolver Text
rewriter = record {
  transport_types = [];
  resolve = λ a target request. ok (record {
    next_hop_address = a;
    target_address = some registry;
    request_override = some (codes "search");
  });
}

add_resolver_lem_example :
    (resolve (add_resolver rewriter false (to_leader ∷ [])) registry none
      ≡ (resolve (to_leader ∷ []) registry none >>= apply rewriter))
    × (resolve (add_resolver rewriter true (to_leader ∷ [])) registry none
        ≡ (resolve (rewriter ∷ []) registry none >>= resolve_from (to_leader ∷ [])))
    × (supports_address registry (add_resolver rewriter true (to_leader ∷ []))
        ≡ (supports_address registry (rewriter ∷ []) || supports_address registry (to_leader ∷ [])))
add_resolver_lem_example = add_resolver_lem rewriter (to_leader ∷ []) registry none true
