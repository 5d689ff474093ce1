-- ===== src/Node/Heartbeat.antt =====
-- packages/o-node/src/managers/o-connection-heartbeat.manager.ts: the health of a node's
-- connections. libp2p is the parameter `connections`: `getConnections` throws (`none`) or gives the
-- status of each connection to a peer. Sending the events is returned as a list, and `Date.now()`
-- is `now`.
pub mod Check
pub mod Failures
mod Tests
use olane.Common.{
  ℕ, suc, ◌+◌, ◌*◌, ◌/◌, Bool, true, false, not, ◌&&◌, ◌||◌, List, [], ◌∷◌, ◌++◌, Option, none,
  some, Text, codes, Dict, text_eq, get, set, delete, any, map, if◌then◌else◌, leb, or_default,
  length,
}
use olane.Core.Address.{Address, Transport, libp2p_transports, leader_value}

pub record HeartbeatConfig : Type 0 where
  pub enabled : Bool
  pub interval_ms : ℕ
  pub failure_threshold : ℕ
  pub check_children : Bool
  pub check_parent : Bool

pub data Status : Type 0 where
  healthy degraded dead : Status

pub data Role : Type 0 where
  parent child leader : Role

-- `peerId` and `averageLatency` are never written after the start, and nothing reads them.
pub record ConnectionHealth : Type 0 where
  pub last_successful_ping : ℕ
  pub consecutive_failures : ℕ
  pub status : Status

pub data Event : Type 0 where
  child_left parent_disconnected leader_disconnected : Text → Event
  connection_degraded connection_recovered : Role → Text → Event

pub record Node : Type 0 where
  pub address : Text
  pub leaders : List Address
  pub parent : Option Address
  pub children : List Address

pub record State : Type 0 where
  pub health_map : Dict ConnectionHealth
  pub is_running : Bool
  pub removed_children : List Text
  pub events : List Event

-- `role === 'leader' ? 'parent' : role`.
abbrev pub event_role : Role → Role
event_role leader = parent
event_role r = r

abbrev pub emit : Event → State → State
emit e s = record s { events = s.events ++ e ∷ [] }

-- `failureThreshold / 2`, rounded up.
abbrev pub half_up : ℕ → ℕ
half_up n = (n + 1) / 2

-- The connections of a transport's peer: what libp2p answers.
abbrev pub Connections : Type 0
Connections = Transport → Option (List Bool)

-- `!!pingResponse`, where `pingResponse` is a promise and not what it resolves to.
abbrev promise_is_truthy : Bool
promise_is_truthy = true

unfoldable pub check_connection_status : Connections → Node → Address → Bool
check_connection_status connections node a =
    if text_eq a.value node.address then true else elim (libp2p_transports a) [
      | [] ↦ false
      | t ∷ ts ↦ elim (connections t) [
        | none ↦ false
        | some open_flags ↦ any (λ b. b) open_flags || promise_is_truthy
      ]
    ]

abbrev pub fresh_health : ConnectionHealth
fresh_health = record { last_successful_ping = 0; consecutive_failures = 0; status = healthy }

abbrev pub is_degraded : Status → Bool
is_degraded degraded = true
is_degraded _ = false

-- `handleConnectionDead`: the entry is dropped, and the role says who is told.
unfoldable pub handle_connection_dead : Text → Role → State → State
handle_connection_dead key role s =
    let t = record s { health_map = delete key s.health_map } in
    elim role [
      | child ↦
          emit (child_left key) (record t { removed_children = t.removed_children ++ key ∷ [] })
      | parent ↦ emit (parent_disconnected key) t
      | leader ↦ emit (leader_disconnected key) t
    ]

-- The branch of `checkTarget` where the connection is open.
unfoldable pub on_open : ℕ → Text → Role → ConnectionHealth → State → State
on_open now key role health s =
    let h = record health {
      last_successful_ping = now;
      consecutive_failures = 0;
      status = healthy;
    } in
    let t = record s { health_map = set key h s.health_map } in
    if is_degraded health.status then emit (connection_recovered (event_role role) key) t else t

-- The branch where it is not.
unfoldable pub on_closed : HeartbeatConfig → Text → Role → ConnectionHealth → State → State
on_closed config key role health s =
    let failures = health.consecutive_failures + 1 in
    let h = record health { consecutive_failures = failures } in
    if leb config.failure_threshold failures
    then handle_connection_dead key role (record s { health_map = set key h s.health_map })
    else if leb (half_up config.failure_threshold) failures
    then emit (connection_degraded (event_role role) key)
        (record s { health_map = set key (record h { status = degraded }) s.health_map })
    else record s { health_map = set key h s.health_map }

-- `checkTarget` from the lookup of the health on, with the answer of `checkConnectionStatus`.
unfoldable pub check_reachable : HeartbeatConfig → ℕ → Bool → Text → Role → State → State
check_reachable config now is_open key role s =
    let health = or_default (get key s.health_map) fresh_health in
    if is_open then on_open now key role health s else on_closed config key role health s

-- A target without transports is passed over.
unfoldable pub check_target : HeartbeatConfig → ℕ → Bool → Address → Role → State → State
check_target config now is_open a role s = elim (libp2p_transports a) [
  | [] ↦ s
  | t ∷ ts ↦ check_reachable config now is_open a.value role s
]

abbrev pub with_role : Role → List Address → List (Address × Role)
with_role r = map (λ a. (a, r))

-- The targets of one cycle: the leaders and the parent of a node that is no leader itself, and its
-- children.
unfoldable pub targets : HeartbeatConfig → Node → List (Address × Role)
targets config node =
    let is_leader_node : Bool = elim node.leaders [ [] ↦ true | a ∷ more ↦ false ] in
    let leaders : List (Address × Role) =
      if is_leader_node then [] else with_role leader node.leaders in
    let parents : List (Address × Role) =
      if config.check_parent && not is_leader_node
      then elim node.parent [
        | none ↦ []
        | some p ↦ if text_eq p.value leader_value then [] else (p, parent) ∷ []
      ]
      else [] in
    let children : List (Address × Role) =
      if config.check_children then with_role child node.children else [] in
    leaders ++ (parents ++ children)

unfoldable pub check_all :
    Connections → HeartbeatConfig → Node → ℕ → List (Address × Role) → State → State
check_all connections config node now [] s = s
check_all connections config node now ((a, role) ∷ rest) s =
    check_all connections config node now rest
      (check_target config now (check_connection_status connections node a) a role s)

-- One cycle. `checkTarget` awaits nothing, so each target is checked whole, in order.
unfoldable pub perform_health_check_cycle : Connections → HeartbeatConfig → Node → ℕ → State → State
perform_health_check_cycle connections config node now s =
    if s.is_running
    then s
    else let t =
        check_all connections config node now (targets config node)
          (record s { is_running = true }) in
      record t { is_running = false }

unfoldable pub stop : State → State
stop s = record s { health_map = [] }
