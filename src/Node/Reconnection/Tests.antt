-- ===== src/Node/Reconnection/Tests.antt =====
-- Witnesses of the reconnection manager.
use olane.Common.{
  arith, ◌≡◌, ◌↔◌, All, refl, true, false, Option, none, some, codes, [], ◌∷◌, ◌++◌, text_eq,
}
use olane.Core.Address.{Address, leader}
use olane.Node.Registration.{initial}
use olane.Node.Reconnection.{
  ReconnectionConfig, State, running, LeaderRound, ParentRound, returned, thrown,
  wait_for_leader_and_reconnect, wait_for_parent_and_reconnect, handle_parent_disconnected,
}
use olane.Node.Reconnection.Rounds.{IsReconnected}
use olane.Node.Reconnection.Loops.{
  all_well, found_well, wait_for_leader_and_reconnect_lem, wait_for_parent_and_reconnect_lem,
}
use olane.Node.Reconnection.Stuck.{
  losses, parent_lost, leader_lost, IsLeaderless, handle_parent_disconnected_stuck,
}

abbrev config : ReconnectionConfig
config = record {
  enabled = true;
  use_leader_fallback = true;
  parent_discovery_interval_ms = 10000;
  parent_discovery_max_delay_ms = 60000;
}

abbrev under : Option Address → Option Address → State
under parent leader = record {
  node = record { is_leader_node = false; parent = parent; leader = leader };
  node_state = running;
  registration = initial;
  reconnecting = false;
  slept = [];
}

abbrev silence : LeaderRound
silence = record { ping = some (codes "gone"); parent_answer = none; leader_answer = none }

abbrev nobody : ParentRound
nobody = record { identified = none; parent_answer = none; ping = none; leader_answer = none }

abbrev parent : Address
parent = record { value = codes "o://leader/p"; transports = [] }

wait_for_leader_and_reconnect_lem_example :
    let (t, o) =
      wait_for_leader_and_reconnect config
        (silence ∷ [] ++ all_well ∷ [])
        (under (some leader) (some leader)) in
    (o ≡ returned) × IsReconnected t
unfolding text_eq
wait_for_leader_and_reconnect_lem_example =
    wait_for_leader_and_reconnect_lem config (silence ∷ []) [] (under (some leader) (some leader))
      (refl, refl, refl, λ e. refl)

wait_for_parent_and_reconnect_lem_example :
    let (t, o) =
      wait_for_parent_and_reconnect config
        (nobody ∷ [] ++ found_well (codes "o://leader/p") (codes "/memory/1" ∷ []) ∷ [])
        (under (some parent) (some leader)) in
    (o ≡ returned) × IsReconnected t
wait_for_parent_and_reconnect_lem_example =
    wait_for_parent_and_reconnect_lem config (codes "o://leader/p") (codes "/memory/1" ∷ [])
      (nobody ∷ []) [] (under (some parent) (some leader)) refl
      (refl, refl, refl, λ e. ground arith)

handle_parent_disconnected_stuck_example :
    let (t, o) = handle_parent_disconnected config [] [] (under (some parent) none) in
    let (u, outcomes) =
      losses config (parent_lost (all_well ∷ []) [] ∷ leader_lost ∷ parent_lost [] [] ∷ []) t in
    ((o ≡ thrown) ↔ IsLeaderless config (under (some parent) none))
    × (o ≡ thrown
        → All (λ p. p ≡ returned) outcomes
          × (u.reconnecting ≡ true)
          × (u.node ≡ (under (some parent) none).node)
          × (u.slept ≡ []))
handle_parent_disconnected_stuck_example =
    handle_parent_disconnected_stuck config [] []
      (parent_lost (all_well ∷ []) [] ∷ leader_lost ∷ parent_lost [] [] ∷ [])
      (under (some parent) none)
