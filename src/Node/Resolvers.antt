-- ===== src/Node/Resolvers.antt =====
-- packages/o-node/src/router/resolvers/o-node.resolver.ts and o-node.leader-resolver-fallback.ts, and
-- packages/o-gateway-olane/src/router/o-gateway.resolver.ts: the other resolvers that a node's chain has.
-- The target and the request are handed on as they are.
pub mod Children
pub mod Claims
mod Tests
use olane.Common.{
  ℕ, Bool, true, false, not, ◌&&◌, ◌||◌, List, [], ◌∷◌, ◌++◌, Option, none, some, Text, codes,
  text_eq, includes, starts_with, any, replace, split, split_head, if◌then◌else◌, Result, ok, err,
}
use olane.Core.Address.{
  Address, Transport, libp2p, address, leader, leader_value, paths, custom_transports,
  set_transports,
}
use olane.Core.Hierarchy.{Hierarchy, get_child}

-- The child, or what becomes of an address that no child has.
abbrev pub child_or : Text → Address → Option Address → Result Text Address
child_or target a (some child) = ok child
child_or target a none =
    if includes leader_value a.value then err (target ++ codes " node not found.") else ok a

-- The next hop, or the text of the error `NOT_FOUND`.
unfoldable pub resolve_node : Address → Bool → Hierarchy → Address → Address → Result Text Address
resolve_node own is_leader h a target =
    let remaining_path = replace (paths own ++ b'/' ∷ []) [] (paths target) in
    let next_node = address (codes "o://" ++ split_head (split b'/' remaining_path)) in
    if text_eq remaining_path (paths target) && not is_leader
    then ok a
    else child_or target.value a (get_child next_node h)

-- `includes` compares transports as objects: `same` tells which are one object.
unfoldable pub resolve_leader_fallback :
    (Transport → Transport → Bool) → Option Address → Address → Option Address
resolve_leader_fallback same none a = if any (λ t. true) a.transports then some a else none
resolve_leader_fallback same (some l) a =
    if any (λ t. any (same t) l.transports) a.transports
    then some l
    else if any (λ t. true) a.transports
    then some a
    else some l

abbrev pub olane_transport : Transport
olane_transport = record { value = codes "/dns4/leader.olane.com/tcp/3000/tls"; type = libp2p }

unfoldable pub resolve_olane_gateway : Address → Address → Address
resolve_olane_gateway a target =
    if not (starts_with (codes "olane") (paths a))
      || any (λ t. text_eq (codes "/olane") t.value) (custom_transports target)
    then a
    else set_transports (olane_transport ∷ []) leader
