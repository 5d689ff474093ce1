-- ===== src/Node/HierarchyEvents.antt =====
-- packages/o-node/src/o-node.hierarchy-manager.ts: what a node makes of the events of peers. The
-- manager's address and its lists are state; the events that a handler emits are its result, in order,
-- each with the reason and the peer that it is given.
pub mod Emitted
mod Tests
use olane.Common.{
  Bool, true, false, ◌||◌, List, [], ◌∷◌, ◌++◌, Option, none, some, Text, codes, text_eq, includes,
  any, if◌then◌else◌, or_default,
}
use olane.Core.Address.{Address, Transport, libp2p_transports}
use olane.Core.Hierarchy.{Hierarchy}
use olane.Core.Notifications.Filters.{Event, Subject, of_node, of_child, of_other}

pub record Emission : Type 0 where
  pub event : Event
  pub about : Address
  pub reason : Option Text
  pub peer_id : Option Text

abbrev pub first_of : List Address → Option Address
first_of [] = none
first_of (a ∷ rest) = some a

unfoldable pub leader_of : Hierarchy → Option Address
leader_of h = first_of h.leaders

-- A transport of the address names the peer.
unfoldable pub mentions : Text → Address → Bool
mentions peer_id a = any (λ t. includes peer_id t.value) (libp2p_transports a)

-- The loop over one list.
unfoldable pub find_peer : Text → List Address → Option Address
find_peer peer_id [] = none
find_peer peer_id (a ∷ others) =
    let rest = find_peer peer_id others in if mentions peer_id a then some a else rest

abbrev pub or_else : Option Address → Option Address → Option Address
or_else none o = o
or_else (some a) o = some a

unfoldable pub peer_id_to_address : Text → Hierarchy → Option Address
peer_id_to_address peer_id h =
    or_else (find_peer peer_id h.children)
      (or_else (find_peer peer_id h.parents) (find_peer peer_id h.leaders))

abbrev pub is_among : List Address → Address → Bool
is_among known a = any (λ b. text_eq b.value a.value) known

unfoldable pub is_child : Address → Hierarchy → Bool
is_child a h = is_among h.children a

unfoldable pub is_parent : Address → Hierarchy → Bool
is_parent a h = is_among h.parents a

unfoldable pub is_leader : Address → Hierarchy → Bool
is_leader a h = is_among h.leaders a

abbrev pub if_so : Bool → Emission → List Emission
if_so true e = e ∷ []
if_so false e = []

-- `peerEvent.reason || 'peer_disconnected'`.
abbrev pub reason_of : Option Text → Text
reason_of none = codes "peer_disconnected"
reason_of (some []) = codes "peer_disconnected"
reason_of (some (c ∷ s)) = c ∷ s

module _ (own : Address) (h : Hierarchy) where
  abbrev pub connected_at : Text → Option Address → List Emission
  connected_at peer_id none = []
  connected_at peer_id (some a) =
      record {
        event = record { type = codes "node:connected"; subject = of_node a };
        about = a;
        reason = none;
        peer_id = some peer_id;
      }
        ∷ if_so (is_child a h) (record {
          event = record { type = codes "child:joined"; subject = of_child a own };
          about = a;
          reason = none;
          peer_id = none;
        })
      ++ if_so (is_parent a h) (record {
        event = record { type = codes "parent:connected"; subject = of_other };
        about = a;
        reason = none;
        peer_id = none;
      })

  unfoldable pub handle_peer_connected : Text → List Emission
  handle_peer_connected peer_id = connected_at peer_id (peer_id_to_address peer_id h)

  abbrev pub lost : Text → Subject → Address → Option Text → Emission
  lost type subject a reason = record {
    event = record { type = type; subject = subject };
    about = a;
    reason = some (reason_of reason);
    peer_id = none;
  }

  abbrev pub disconnected_at : Option Text → Option Address → List Emission
  disconnected_at reason none = []
  disconnected_at reason (some a) =
      lost (codes "node:disconnected") (of_node a) a reason
        ∷ if_so (is_child a h) (lost (codes "child:left") (of_child a own) a reason)
      ++ if_so (is_parent a h) (lost (codes "parent:disconnected") of_other a reason)
      ++ if_so (is_leader a h) (lost (codes "leader:disconnected") of_other a reason)

  unfoldable pub handle_peer_disconnected : Text → Option Text → List Emission
  handle_peer_disconnected peer_id reason = disconnected_at reason (peer_id_to_address peer_id h)

  abbrev pub discovered_at : Option Address → List Emission
  discovered_at none = []
  discovered_at (some a) =
      record {
        event = record { type = codes "node:discovered"; subject = of_other };
        about = a;
        reason = none;
        peer_id = none;
      }
      ∷ []

  unfoldable pub handle_peer_discovered : Text → List Emission
  handle_peer_discovered peer_id = discovered_at (peer_id_to_address peer_id h)
