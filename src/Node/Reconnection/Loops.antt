-- ===== src/Node/Reconnection/Loops.antt =====
-- How the waits end.
use olane.Common.{
  ◌≡◌, refl, sym, ap, ◌∙◌, Bool, true, false, not, List, [], ◌∷◌, ◌++◌, map, length, All, Option,
  none, some, Text, text_eq, is_some, arith,
}
use olane.Core.Address.{Address, Transport, libp2p_transports, leader_value}
use olane.Node.Registration
use olane.Node.Registration.{
  Registration, is_fully_registered, register_parent, start_parent, register_leader, start_leader,
  reset_all, needs_transports,
}
use olane.Node.Registration.Transitions.{register_both}
use olane.Node.Reconnection.{
  ReconnectionConfig, State, LeaderRound, ParentRound, no_wait, conclude, conclude_with_leader,
  leader_round, is_usable, node_transport, adopt_parent, register_with_found, parent_round,
  returned, still_waiting, wait_for_leader_and_reconnect, wait_for_parent_and_reconnect,
}
use olane.Node.Reconnection.Backoff.{pauses, wait_from_slept}
use olane.Node.Reconnection.Rounds.{
  IsReconnected, value_is_leader, IsReady, leader_round-IsSound, parent_round-IsSound,
  wait_from_returns,
}

abbrev pub all_well : LeaderRound
all_well = record { ping = none; parent_answer = none; leader_answer = none }

abbrev pub found_well : Text → List Text → ParentRound
found_well value ts = record {
  identified = some (value, ts);
  parent_answer = none;
  ping = none;
  leader_answer = none;
}

some-witness {ℓ} : {A : Type ℓ} (o : Option A) → is_some o ≡ true → (a : A) × (o ≡ some a)
some-witness none e = ground arith
some-witness (some a) e = (a, refl)

leader_reachable :
    (n : Registration.Node) (a : Address)
    → value_is_leader (some a) ≡ true
    → needs_transports n a ≡ false
leader_reachable n a e = of (libp2p_transports a)
  where
    of :
        (ts : List Transport)
        → elim ts as (λ x. Bool) [ t ∷ more ↦ false | [] ↦ not (text_eq a.value leader_value) ]
          ≡ false
    of [] = rw e refl
    of (t ∷ more) = refl

usable_reachable :
    (n : Registration.Node) (value : Text) (ts : List Text)
    → is_usable value ts ≡ true
    → needs_transports n (record { value = value; transports = map node_transport ts }) ≡ false
unfolding libp2p_transports
usable_reachable n [] ts e = ground arith
usable_reachable n (c ∷ v) [] e = ground arith
usable_reachable n (c ∷ v) (t ∷ ts) e = refl

conclude-slept : (s : State) → (conclude s).0.slept ≡ s.slept
unfolding conclude
conclude-slept s = ground arith

conclude_with_leader-slept :
    (answer : Option Text) (s : State) → (conclude_with_leader answer s).0.slept ≡ s.slept
unfolding conclude_with_leader
conclude_with_leader-slept answer s = ground (
  arith,
  conclude-slept (record s { registration = (register_leader s.node answer s.registration).1 }),
)

leader_round-slept : (r : LeaderRound) (s : State) → (leader_round r s).0.slept ≡ s.slept
unfolding leader_round
leader_round-slept r s =
    let step = register_parent s.node r.parent_answer no_wait (reset_all s.registration) in
    ground (arith, conclude_with_leader-slept r.leader_answer (record s { registration = step.1 }))

All-silent :
    (rounds : List LeaderRound)
    → All (λ r. is_some r.ping ≡ true) rounds
    → All (λ r. (t : State) → (leader_round r t).1 ≡ false) rounds
unfolding leader_round
All-silent [] silent = tt
All-silent (r ∷ rounds) (e, more) = (λ t. rw e refl, All-silent rounds more)

thrown_by_parent :
    (n : Registration.Node) (r : Registration) → (register_parent n none no_wait r).0 ≡ none
unfolding register_parent start_parent
thrown_by_parent n r = ground arith

thrown_by_leader : (n : Registration.Node) (r : Registration) → (register_leader n none r).0 ≡ none
unfolding register_leader start_leader
thrown_by_leader n r = ground arith

conclude_well :
    (s : State)
    → is_fully_registered s.node (register_leader s.node none s.registration).1 ≡ true
    → (conclude_with_leader none s).1 ≡ true
unfolding conclude_with_leader conclude
conclude_well s full = rw (thrown_by_leader s.node s.registration, full) refl

all_well_succeeds : (s : State) → IsReady true s.node → (leader_round all_well s).1 ≡ true
unfolding leader_round
all_well_succeeds s (l, p, q, at_leader) =
    let (a, ea) = some-witness s.node.parent p in
    let (b, eb) = some-witness s.node.leader q in
    let reachable : needs_transports s.node a ≡ false =
      leader_reachable s.node a (sym (ap value_is_leader ea) ∙ at_leader refl) in
    let full = register_both s.node a b no_wait s.registration l ea eb reachable in
    let t = record s {
      registration = (register_parent s.node none no_wait (reset_all s.registration)).1;
    } in
    rw (thrown_by_parent s.node (reset_all s.registration)) (conclude_well t full)

found_well_succeeds :
    (value : Text) (ts : List Text)
    → is_usable value ts ≡ true
    → (s : State) → IsReady false s.node
    → (parent_round (found_well value ts) s).1 ≡ true
unfolding parent_round register_with_found adopt_parent
found_well_succeeds value ts usable s (l, p, q, _) =
    let (b, eb) = some-witness s.node.leader q in
    let t = adopt_parent value ts s in
    let reachable : needs_transports t.node
          (record { value = value; transports = map node_transport ts })
        ≡ false =
      usable_reachable s.node value ts usable in
    let full = register_both t.node _ b no_wait s.registration l refl eb reachable in
    let u = record t { registration = (register_parent t.node none no_wait t.registration).1 } in
    rw (p, usable) (rw (thrown_by_parent t.node (reset_all s.registration)) (conclude_well u full))

-- Once the leader answers and takes the registrations, a node whose parent is the leader is connected
-- again, whatever the rounds before brought: the wait returns, the node is fully registered, and the
-- manager is ready for the next disconnect.
pub wait_for_leader_and_reconnect_lem :
    (config : ReconnectionConfig) (before after : List LeaderRound) (s : State)
    → IsReady true s.node
    → let (t, o) = wait_for_leader_and_reconnect config (before ++ all_well ∷ after) s in
      (o ≡ returned) × IsReconnected t
unfolding wait_for_leader_and_reconnect
wait_for_leader_and_reconnect_lem config before after s ready =
    wait_from_returns leader_round true (leader_round-IsSound true) all_well all_well_succeeds
      before after config.parent_discovery_max_delay_ms config.parent_discovery_interval_ms s ready

-- Once the parent is found with an address and a transport and takes the registration, and the
-- leader takes its own, the node is connected again, whatever the rounds before brought.
pub wait_for_parent_and_reconnect_lem :
    (config : ReconnectionConfig) (value : Text) (ts : List Text) (before after : List ParentRound)
    (s : State)
    → is_usable value ts ≡ true
    → IsReady false s.node
    → let (t, o) = wait_for_parent_and_reconnect config (before ++ found_well value ts ∷ after) s in
      (o ≡ returned) × IsReconnected t
unfolding wait_for_parent_and_reconnect
wait_for_parent_and_reconnect_lem config value ts before after s usable ready = rw ready.2 (
    wait_from_returns parent_round false parent_round-IsSound (found_well value ts)
      (found_well_succeeds value ts usable) before after config.parent_discovery_max_delay_ms
      config.parent_discovery_interval_ms s ready)

-- If no round brings an answer of the leader, the wait goes on, with a pause after each round that
-- doubles from the interval of the configuration up to its maximum.
pub wait_for_leader_and_reconnect_waits :
    (config : ReconnectionConfig) (rounds : List LeaderRound) (s : State)
    → All (λ r. is_some r.ping ≡ true) rounds
    → let (t, o) = wait_for_leader_and_reconnect config rounds s in
      (t.slept
        ≡ s.slept
          ++ pauses config.parent_discovery_interval_ms config.parent_discovery_max_delay_ms 0
              (length rounds))
      × (o ≡ still_waiting)
unfolding wait_for_leader_and_reconnect
wait_for_leader_and_reconnect_waits config rounds s silent =
    wait_from_slept leader_round config.parent_discovery_interval_ms
      config.parent_discovery_max_delay_ms 0 config.parent_discovery_interval_ms rounds s
      leader_round-slept (All-silent rounds silent) (omega arith)
