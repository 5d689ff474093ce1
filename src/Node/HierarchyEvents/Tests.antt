-- ===== src/Node/HierarchyEvents/Tests.antt =====
-- Witnesses and runs of the events of a hierarchy.
use olane.Common.{
  ◌≡◌, refl, true, [], ◌∷◌, none, some, codes, includes, starts_with, strip_prefix, any,
}
use olane.Core.Address.{Address, libp2p, libp2p_transports, address}
use olane.Core.Hierarchy.{Hierarchy}
use olane.Node.HierarchyEvents.{
  mentions, find_peer, handle_peer_connected, handle_peer_disconnected,
}
use olane.Node.HierarchyEvents.Emitted.{tells, child_lem}

abbrev at : Address
at = record {
  value = codes "o://leader/a";
  transports = record { value = codes "/x/p2p/P"; type = libp2p } ∷ [];
}

abbrev own : Address
own = address (codes "o://leader")

abbrev family : Hierarchy
family = record { leaders = []; parents = at ∷ []; children = at ∷ [] }

is_found : find_peer (codes "P") family.children ≡ some at
unfolding find_peer mentions libp2p_transports includes starts_with strip_prefix
is_found = refl

child_lem_example :
    (any (tells (codes "child:joined") own at) (handle_peer_connected own family (codes "P"))
      ≡ true)
    × (any
          (tells (codes "child:left") own at)
          (handle_peer_disconnected own family (codes "P") none)
        ≡ true)
child_lem_example = child_lem own family (codes "P") none at is_found
