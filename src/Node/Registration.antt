-- ===== src/Node/Registration.antt =====
-- packages/o-node/src/managers/o-registration.manager.ts: the registration of a node with its parent
-- and with its leader's registry. What the calls of other nodes answer are parameters: the reason of
-- a failure, or `none`.
pub mod Transitions
pub mod Flights
mod Tests
use olane.Common.{
  Bool, true, false, not, ◌&&◌, ◌||◌, List, [], ◌∷◌, Option, none, some, Text, text_eq,
  if◌then◌else◌, is_some, or_default, ℕ,
}
use olane.Core.Address.{Address, Transport, libp2p_transports, leader_value, set_transports}

pub data RegistrationState : Type 0 where
  not_registered registering registered failed : RegistrationState

pub record Registration : Type 0 where
  pub parent_state : RegistrationState
  pub leader_state : RegistrationState
  pub parent_error : Option Text
  pub leader_error : Option Text

abbrev pub initial : Registration
initial = record {
  parent_state = not_registered;
  leader_state = not_registered;
  parent_error = none;
  leader_error = none;
}

-- What the manager reads of its node.
pub record Node : Type 0 where
  pub is_leader_node : Bool
  pub parent : Option Address
  pub leader : Option Address

abbrev pub can_register : RegistrationState → Bool
can_register registering = false
can_register registered = false
can_register _ = true

unfoldable pub can_register_parent : Registration → Bool
can_register_parent r = can_register r.parent_state

unfoldable pub can_register_leader : Registration → Bool
can_register_leader r = can_register r.leader_state

abbrev pub is_registered : RegistrationState → Bool
is_registered registered = true
is_registered _ = false

unfoldable pub is_fully_registered : Node → Registration → Bool
is_fully_registered n r =
    if n.is_leader_node
    then true
    else if not (is_some n.parent)
    then is_registered r.leader_state
    else is_registered r.parent_state && is_registered r.leader_state

unfoldable pub reset_parent_state : Registration → Registration
reset_parent_state r = record r { parent_state = not_registered; parent_error = none }

unfoldable pub reset_leader_state : Registration → Registration
reset_leader_state r = record r { leader_state = not_registered; leader_error = none }

unfoldable pub reset_all : Registration → Registration
reset_all r = reset_leader_state (reset_parent_state r)

-- What `registerParent` does before its first `await`: nothing, a call of the parent, or, for a
-- parent without transports that is not the leader, a wait for the reconnection manager.
pub data Start : Type 0 where
  skip call_parent await_reconnection : Start

abbrev pub needs_transports : Node → Address → Bool
needs_transports n p = elim (libp2p_transports p) [
  | t ∷ ts ↦ false
  | [] ↦ not (text_eq p.value leader_value)
]

unfoldable pub start_parent : Node → Registration → Start × Registration
start_parent n r = elim n.parent [
  | none ↦ (skip, r)
  | some p ↦
      if n.is_leader_node || not (can_register_parent r)
      then (skip, r)
      else if needs_transports n p
      then (await_reconnection, record r { parent_state = not_registered; parent_error = none })
      else (call_parent, record r { parent_state = registering; parent_error = none })
]

-- After the calls: `child_register` and the keep-alive tag succeeded, or one threw. The entry of the
-- parent in the hierarchy, and the leader's transports that a parent without any takes over, are no
-- part of the state.
unfoldable pub finish_parent : Option Text → Registration → Registration
finish_parent none r = record r { parent_state = registered }
finish_parent (some e) r = record r { parent_state = failed; parent_error = some e }

-- The whole of `registerParent` where nothing else runs meanwhile; `reconnect` is what waiting for
-- the reconnection manager does, and the thrown error is the second result.
unfoldable pub register_parent :
    Node
    → Option Text
    → (Registration → Option Text × Registration)
    → Registration
    → Option Text × Registration
register_parent n answer reconnect r =
    let (start, s) = start_parent n r in
    elim start [
      | skip ↦ (none, s)
      | call_parent ↦ (answer, finish_parent answer s)
      | await_reconnection ↦
          let (problem, t) = reconnect s in
          elim problem [ none ↦ (none, t) | some e ↦ (some e, finish_parent (some e) t) ]
    ]

unfoldable pub start_leader : Node → Registration → Bool × Registration
start_leader n r =
    if is_some n.leader && can_register_leader r
    then (true, record r { leader_state = registering; leader_error = none })
    else (false, r)

unfoldable pub finish_leader : Option Text → Registration → Registration
finish_leader none r = record r { leader_state = registered }
finish_leader (some e) r = record r { leader_state = failed; leader_error = some e }

unfoldable pub register_leader : Node → Option Text → Registration → Option Text × Registration
register_leader n answer r =
    let (started, s) = start_leader n r in
    if started then (answer, finish_leader answer s) else (none, s)
