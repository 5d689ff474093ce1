-- ===== src/Node/Routing.antt =====
-- packages/o-node/src/router/o-node.routing-policy.ts and the translation and the forwarding of
-- o-node.router.ts: where a node sends a request. The local execution and the dial that a request is
-- forwarded to are the outcomes `executed` and `sent`; an error is its text.
pub mod Referral
pub mod Destination
mod Tests
use olane.Common.{
  Bool, true, false, not, ◌&&◌, ◌||◌, List, [], ◌∷◌, Option, none, some, Text, codes, text_eq,
  includes, any, set, if◌then◌else◌, Result, ok, err,
}
use olane.Common.Json.{Json, string}
use olane.Core.Address.{
  Address, address, leader, leader_value, paths, libp2p_transports, equals, to_static_address,
}
use olane.Core.Hierarchy.{Hierarchy}
use olane.Core.ResolverChain.{Route, Resolver, resolve}

unfoldable pub is_self_address : Address → Address → Bool
is_self_address own a = equals own a

-- Whether the address speaks of a leader and says how to dial it.
unfoldable pub is_leader_ref : Address → Bool
is_leader_ref a = includes (paths leader) (paths a) && any (λ t. true) (libp2p_transports a)

unfoldable pub is_internal_address : Address → Hierarchy → Address → Bool
is_internal_address own h a =
    if any (λ p. equals p a) h.parents
    then true
    else if any (λ p. equals p a) h.children
    then true
    else if is_leader_ref a
    then text_eq a.value leader_value || (equals own a || any (λ l. equals l a) h.leaders)
    else true

module _ {R : Type 0} where
  unfoldable pub get_external_routing_strategy : Address → Hierarchy → Address → Option (Route R)
  get_external_routing_strategy own h a =
      if not (is_internal_address own h a)
      then some (record {
        next_hop_address = record { value = leader_value; transports = libp2p_transports a };
        target_address = a;
        request_override = none;
      })
      else none

  abbrev pub route_or : Option (Route R) → Result Text (Route R) → Result Text (Route R)
  route_or none r = r
  route_or (some external) r = ok external

  unfoldable pub translate :
      Address → Hierarchy → List (Resolver R) → Address → Result Text (Route R)
  translate own h chain a = route_or (get_external_routing_strategy own h a) (resolve chain a none)

-- The `payload` of a request for a route: what the target is to run.
pub record Payload : Type 0 where
  pub method : Text
  pub params : List (Text × Json)

-- A request for a route, with what `params` has of it. `stream` tells whether there is one.
pub record RouterRequest : Type 0 where
  pub id : Text
  pub method : Text
  pub address : Text
  pub connection_id : Text
  pub payload : Payload
  pub stream : Bool

-- The whole envelope, or what was in it with the id; either goes with the stream of the request.
pub data Message : Type 0 where
  envelope : RouterRequest → Message
  unwrapped : Text → Payload → Message

pub data Outcome : Type 0 where
  executed : Text → Payload → Outcome
  sent : Address → Message → Outcome

unfoldable pub local_payload : RouterRequest → Payload
local_payload r = record {
  method = r.payload.method;
  params =
      set (codes "_requestMethod") (string r.payload.method)
        (set (codes "_connectionId") (string r.connection_id) r.payload.params);
}

unfoldable pub is_destination_address : Address → RouterRequest → Bool
is_destination_address a r = equals (to_static_address a) (to_static_address (address r.address))

unfoldable pub next_hop_request : Address → RouterRequest → Message
next_hop_request a r = if is_destination_address a r then unwrapped r.id r.payload else envelope r

unfoldable pub forward : Address → Address → RouterRequest → Result Text Outcome
forward own a r =
    if not r.stream
    then err (codes "Stream is required")
    else if is_self_address own a
    then ok (executed r.id (local_payload r))
    else ok (sent a (next_hop_request a r))
