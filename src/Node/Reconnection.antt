-- ===== src/Node/Reconnection.antt =====
-- packages/o-node/src/managers/o-reconnection.manager.ts: how a node comes back to its parent. The
-- loops run until they succeed; here they run over the rounds that the network makes of them, with
-- the answers of each, and stop where the rounds do. An answer is the error it threw, or `none`. The
-- registrations are those of packages/o-node/src/managers/o-registration.manager.ts.
pub mod Backoff
pub mod Loops
pub mod Rounds
pub mod Stuck
mod Tests
use olane.Common.{
  ℕ, ◌*◌, min, Bool, true, false, not, ◌&&◌, ◌||◌, List, [], ◌∷◌, ◌++◌, map, Option, none, some,
  Text, text_eq, if◌then◌else◌, is_some,
}
use olane.Core.Address.{Transport, libp2p, leader_value}
use olane.Node.Registration
use olane.Node.Registration.{
  Registration, reset_parent_state, reset_leader_state, reset_all, register_parent, register_leader,
  is_fully_registered,
}

pub record ReconnectionConfig : Type 0 where
  pub enabled : Bool
  pub use_leader_fallback : Bool
  pub parent_discovery_interval_ms : ℕ
  pub parent_discovery_max_delay_ms : ℕ

pub data NodeState : Type 0 where
  starting running stopping stopped error : NodeState

pub record State : Type 0 where
  pub node : Registration.Node
  pub node_state : NodeState
  pub registration : Registration
  pub reconnecting : Bool
  pub slept : List ℕ

-- `ping` of the leader, then the two registrations.
pub record LeaderRound : Type 0 where
  pub ping : Option Text
  pub parent_answer : Option Text
  pub leader_answer : Option Text

-- `identify` (`none` if it threw) gives the parent's address and its transports; then the
-- registration with the parent, the ping of the parent and the registration with the leader.
pub record ParentRound : Type 0 where
  pub identified : Option (Text × List Text)
  pub parent_answer : Option Text
  pub ping : Option Text
  pub leader_answer : Option Text

-- The parent has transports or is the leader, so `registerParent` waits for no reconnection.
abbrev pub no_wait : Registration → Option Text × Registration
no_wait r = (none, r)

-- The end of a round: full registration is the only way out of the loop.
unfoldable pub conclude : State → State × Bool
conclude s =
    if is_fully_registered s.node s.registration
    then (record s { reconnecting = false }, true)
    else (s, false)

-- Register with the registry, then conclude.
unfoldable pub conclude_with_leader : Option Text → State → State × Bool
conclude_with_leader answer s =
    let (thrown, r) = register_leader s.node answer s.registration in
    let t = record s { registration = r } in if is_some thrown then (t, false) else conclude t

unfoldable pub leader_round : LeaderRound → State → State × Bool
leader_round round s =
    if is_some round.ping
    then (s, false)
    else let (thrown, r) =
        register_parent s.node round.parent_answer no_wait (reset_all s.registration) in
      let t = record s { registration = r } in
      if is_some thrown then (t, false) else conclude_with_leader round.leader_answer t

-- `parentAddress && parentTransports && parentTransports.length > 0`.
abbrev pub is_usable : Text → List Text → Bool
is_usable [] ts = false
is_usable (c ∷ v) [] = false
is_usable (c ∷ v) (t ∷ ts) = true

-- `new oNodeTransport(value)`.
abbrev pub node_transport : Text → Transport
node_transport v = record { value = v; type = libp2p }

-- The parent was found: the node's parent is that address from now on.
unfoldable pub adopt_parent : Text → List Text → State → State
adopt_parent value ts s = record s {
  node = record (s.node) {
    parent = some (record { value = value; transports = map node_transport ts });
  };
  registration = reset_all s.registration;
}

-- `tryDirectParentReconnection`, then the registry.
unfoldable pub register_with_found : ParentRound → State → State × Bool
register_with_found round s =
    let (thrown, r) = register_parent s.node round.parent_answer no_wait s.registration in
    let t = record s { registration = r } in
    if is_some thrown || is_some round.ping
    then (t, false)
    else conclude_with_leader round.leader_answer t

unfoldable pub parent_round : ParentRound → State → State × Bool
parent_round round s = if not (is_some s.node.parent) then (s, false) else elim round.identified [
  | none ↦ (s, false)
  | some (value, ts) ↦
      if is_usable value ts then register_with_found round (adopt_parent value ts s) else (s, false)
]

-- How far a wait has come: it returned, it is still waiting, or it threw.
pub data Outcome : Type 0 where
  returned still_waiting thrown : Outcome

-- Both loops: a round, then a pause that doubles up to its maximum.
unfoldable pub wait_from {ℓ} :
    {R : Type ℓ} → (R → State → State × Bool) → ℕ → ℕ → List R → State → State × Outcome
wait_from attempt most delay [] s = (s, still_waiting)
wait_from attempt most delay (round ∷ rounds) s =
    let (t, done) = attempt round s in
    let later =
      wait_from attempt most (min (delay * 2) most) rounds
        (record t { slept = t.slept ++ min delay most ∷ [] }) in
    if done then (t, returned) else later

unfoldable pub wait_for_leader_and_reconnect :
    ReconnectionConfig → List LeaderRound → State → State × Outcome
wait_for_leader_and_reconnect config rounds s =
    wait_from leader_round config.parent_discovery_max_delay_ms config.parent_discovery_interval_ms
      rounds s

unfoldable pub wait_for_parent_and_reconnect :
    ReconnectionConfig → List ParentRound → State → State × Outcome
wait_for_parent_and_reconnect config rounds s =
    if is_some s.node.leader
    then wait_from parent_round config.parent_discovery_max_delay_ms
        config.parent_discovery_interval_ms rounds s
    else (s, thrown)

abbrev pub parent_is_leader : State → Bool
parent_is_leader s = elim s.node.parent [ none ↦ false | some p ↦ text_eq p.value leader_value ]

unfoldable pub try_leader_fallback :
    ReconnectionConfig → List LeaderRound → List ParentRound → State → State × Outcome
try_leader_fallback config leader_rounds parent_rounds s =
    if parent_is_leader s
    then wait_for_leader_and_reconnect config leader_rounds s
    else wait_for_parent_and_reconnect config parent_rounds s

unfoldable pub handle_reconnection_failure : State → State
handle_reconnection_failure s = record s { reconnecting = false; node_state = error }

unfoldable pub attempt_reconnection :
    ReconnectionConfig → List LeaderRound → List ParentRound → State → State × Outcome
attempt_reconnection config leader_rounds parent_rounds s =
    if not config.enabled
    then (s, returned)
    else let t = record s { reconnecting = true } in
      if config.use_leader_fallback
      then try_leader_fallback config leader_rounds parent_rounds t
      else (handle_reconnection_failure t, returned)

unfoldable pub handle_parent_disconnected :
    ReconnectionConfig → List LeaderRound → List ParentRound → State → State × Outcome
handle_parent_disconnected config leader_rounds parent_rounds s =
    if s.reconnecting
    then (s, returned)
    else attempt_reconnection config leader_rounds parent_rounds
        (record s { registration = reset_parent_state s.registration })

unfoldable pub handle_leader_disconnected : State → State
handle_leader_disconnected s = record s { registration = reset_leader_state s.registration }
