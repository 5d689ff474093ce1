-- ===== src/Node/Routing/Tests.antt =====
-- Witnesses and runs of the routing.
use olane.Common.{
  ◌≡◌, ◌⊎◌, refl, true, false, not, ◌&&◌, List, [], ◌∷◌, none, Text, codes, text_eq, ok, replace,
  strip_prefix, starts_with, includes, split, split_head, split_last,
}
use olane.Core.Address.{
  libp2p, Address, address, paths, equals, transports_equal, to_static_address, leader_value,
  libp2p_transports,
}
use olane.Core.Hierarchy.{Hierarchy}
use olane.Core.ResolverChain.{Route, Resolver, resolve}
use olane.Node.Routing.{
  RouterRequest, is_internal_address, is_leader_ref, is_destination_address, translate,
}
use olane.Node.Routing.Referral.{knows, translate_lem}

abbrev own : Address
own = address (codes "o://leader/a")

abbrev family : Hierarchy
family = record { leaders = []; parents = []; children = [] }

abbrev abroad : Address
abroad = record {
  value = codes "o://leader/b";
  transports = record { value = codes "/x/p2p/P"; type = libp2p } ∷ [];
}

abbrev leader_below : Resolver Text
leader_below = record {
  transport_types = [];
  resolve = λ a target request.
      ok (record { next_hop_address = a; target_address = none; request_override = none });
}

run : Unit {0}
unfolding text_eq strip_prefix starts_with includes replace split split_head split_last paths
    transports_equal equals to_static_address libp2p_transports is_leader_ref is_internal_address
    is_destination_address
run = tt

abroad-external : is_internal_address own family abroad ≡ false
unfolding run
abroad-external = refl

-- An address only has to have the word somewhere.
misleading-external :
    is_internal_address own family (record abroad { value = codes "o://misleader" }) ≡ false
unfolding run
misleading-external = refl

abbrev request_b : RouterRequest
request_b = record {
  id = codes "1";
  method = codes "route";
  address = codes "o://leader/b";
  connection_id = codes "c";
  payload = record { method = codes "add"; params = [] };
  stream = true;
}

not-abroad : is_destination_address abroad request_b ≡ false
unfolding run
not-abroad = refl

another_branch : is_destination_address (address (codes "o://leader/a/b")) request_b ≡ true
unfolding run
another_branch = refl

translate_lem_example :
    ((is_internal_address own family abroad ≡ true)
      × (translate own family (leader_below ∷ []) abroad ≡ resolve (leader_below ∷ []) abroad none))
    ⊎ ((r : Route Text) × (is_internal_address own family abroad ≡ false)
        × (translate own family (leader_below ∷ []) abroad ≡ ok r)
        × (r.target_address ≡ abroad)
        × (libp2p_transports r.next_hop_address ≡ libp2p_transports abroad)
        × ((is_leader_ref abroad
              && (not (text_eq abroad.value leader_value) && not (knows own family abroad)))
            ≡ true)
        × ((other : Address) (g : Hierarchy) (rest : List (Resolver Text))
            → translate other g rest r.next_hop_address ≡ resolve rest r.next_hop_address none))
translate_lem_example = translate_lem own family (leader_below ∷ []) abroad
