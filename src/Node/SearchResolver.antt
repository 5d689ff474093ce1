-- ===== src/Node/SearchResolver.antt =====
-- packages/o-node/src/router/resolvers/o-node.search-resolver.ts: the route of an address that the
-- registry knows. The registry's answer is a parameter, or the error that the call of it throws.
-- `setTransports` writes to the object that `next` returns, which can be the node's own address: the
-- node after the call is part of the result.
pub mod Path
pub mod Looping
mod Tests
use olane.Common.{
  Bool, true, false, not, ◌&&◌, ◌||◌, List, [], ◌∷◌, ◌++◌, Option, none, some, Text, text_eq,
  keep_if, length, if◌then◌else◌, replace, map, Result, ok, err, ◌==◌,
}
use olane.Core.Address.{
  Address, Transport, TransportType, libp2p, address, leader, leader_value, registry_value,
  protocol, to_root_address, set_transports, next, equals,
}
use olane.Core.Hierarchy.{Hierarchy, get_child}

pub record SearchResult : Type 0 where
  pub static_address : Text
  pub address : Text
  pub transports : List Text

pub record Node : Type 0 where
  pub address : Address
  pub leader : Option Address
  pub hierarchy : Hierarchy
  pub is_running : Bool

pub record Route : Type 0 where
  pub next_hop_address : Address
  pub target_address : Address

pub record SearchParams : Type 0 where
  pub static_address : Text
  pub address : Text

unfoldable pub build_search_params : Address → SearchParams
build_search_params a = record { static_address = (to_root_address a).value; address = a.value }

-- `result.address !== node.address` compares a text with an object, and always holds.
unfoldable pub filter_search_results : List SearchResult → List SearchResult
filter_search_results rs = keep_if (λ r. not (text_eq r.static_address registry_value)) rs

abbrev pub select_result : List SearchResult → Option SearchResult
select_result [] = none
select_result (r ∷ rs) = some r

abbrev pub map_transports : SearchResult → List Transport
map_transports r = map (λ t. record { value = t; type = libp2p }) r.transports

abbrev pub transports_of : Option Address → List Transport → List Transport
transports_of none other = other
transports_of (some a) other = a.transports

unfoldable pub resolve_next_hop_transports : Address → List Transport → Node → List Transport
resolve_next_hop_transports next_hop target_transports node =
    if text_eq next_hop.value leader_value
    then transports_of node.leader []
    else transports_of (get_child next_hop node.hierarchy) target_transports

-- Whether `oAddress.next` returns the object that it was given, and not a new one.
unfoldable pub next_is_same : Address → Address → Bool
next_is_same a target =
    let remaining_path = replace (protocol a ++ b'/' ∷ []) [] (protocol target) in
    text_eq remaining_path []
    || (text_eq remaining_path (protocol target)
        && (text_eq a.value target.value || equals a leader))

unfoldable pub determine_next_hop : Node → Address → SearchResult → Address × Node
determine_next_hop node target r =
    let hop = next node.address target in
    let reached = set_transports (resolve_next_hop_transports hop (map_transports r) node) hop in
    (reached, if next_is_same node.address target then record node { address = reached } else node)

unfoldable pub ends_with : Text → Text → Bool
ends_with p [] = text_eq p []
ends_with p (c ∷ s) = text_eq p (c ∷ s) || ends_with p s

abbrev pub is_empty : Text → Bool
is_empty [] = true
is_empty (c ∷ s) = false

-- What stands behind the first segment of the address.
unfoldable pub extra_params : Address → Text
extra_params a = replace (to_root_address a).value [] a.value

unfoldable pub resolved_target : Address → SearchResult → Address
resolved_target a r =
    let extra = extra_params a in
    let value =
      (if not (is_empty extra) && not (ends_with extra r.address)
        then r.address ++ extra
        else r.address) in
    record { value = value; transports = map_transports r }

abbrev pub unchanged : Address → Address → Route
unchanged a target = record { next_hop_address = a; target_address = target }

abbrev pub selected : Node → Address → Address → Option SearchResult → Route × Node
selected node a target none = (unchanged a target, node)
selected node a target (some r) =
    let resolved = resolved_target a r in
    let (hop, after) = determine_next_hop node resolved r in
    (record { next_hop_address = hop; target_address = resolved }, after)

abbrev pub searched : Node → Address → Address → Result Text (List SearchResult) → Route × Node
searched node a target (err e) = (unchanged a target, node)
searched node a target (ok rs) = selected node a target (select_result (filter_search_results rs))

unfoldable pub resolve : Node → Address → Address → Result Text (List SearchResult) → Route × Node
resolve node a target search =
    if not (length a.transports == 0)
    then (unchanged a target, node)
    else if not node.is_running
    then (unchanged a target, node)
    else searched node a target search
