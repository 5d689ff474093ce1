-- ===== src/Node/Reconnection/Stuck.antt =====
-- What becomes of a node that knows no leader when it loses its parent.
use olane.Common.{
  ℕ, ◌*◌, min, ◌≡◌, ◌↔◌, ◌++◌, refl, ◌∙◌, Bool, true, false, List, [], ◌∷◌, All, is_some,
  Bool-cases, inl, inr, arith,
}
use olane.Node.Registration.{reset_parent_state}
use olane.Node.Reconnection.{
  ReconnectionConfig, State, LeaderRound, ParentRound, Outcome, returned, thrown, leader_round,
  parent_round, parent_is_leader, wait_from, wait_for_leader_and_reconnect,
  wait_for_parent_and_reconnect, try_leader_fallback, attempt_reconnection,
  handle_parent_disconnected, handle_leader_disconnected,
}

-- What the manager is told: a loss of the parent, with the rounds that the network would make of the
-- waits, or of the leader.
pub data Loss : Type 0 where
  parent_lost : List LeaderRound → List ParentRound → Loss
  leader_lost : Loss

-- The losses in order, with what each wait came to.
unfoldable pub losses : ReconnectionConfig → List Loss → State → State × List Outcome
losses config [] s = (s, [])
losses config (parent_lost leader_rounds parent_rounds ∷ later) s =
    let (t, o) = handle_parent_disconnected config leader_rounds parent_rounds s in
    let (u, outcomes) = losses config later t in (u, o ∷ outcomes)
losses config (leader_lost ∷ later) s = losses config later (handle_leader_disconnected s)

-- Reconnection and the fallback are enabled and none is under way, and the parent is not the leader,
-- of which the node knows none.
pub record IsLeaderless (config : ReconnectionConfig) (s : State) : Type 0 where
  pub enabled : config.enabled ≡ true
  pub fallback : config.use_leader_fallback ≡ true
  pub idle : s.reconnecting ≡ false
  pub other_parent : parent_is_leader s ≡ false
  pub no_leader : is_some s.node.leader ≡ false

wait_from_returned :
    {R : Type 0} (attempt : R → State → State × Bool) (most delay : ℕ) (rounds : List R) (s : State)
    → (wait_from attempt most delay rounds s).1 ≡ thrown
    → ⊥
unfolding wait_from
wait_from_returned attempt most delay [] s h = absurd (cc)
wait_from_returned attempt most delay (round ∷ rounds) s h =
    let next = record ((attempt round s).0) {
      slept = (attempt round s).0.slept ++ min delay most ∷ [];
    } in
    elim (Bool-cases (attempt round s).1) [
      | inl e ↦ absurd (let good : Outcome.returned ≡ Outcome.thrown = rw (e, wait_from) at h in cc)
      | inr e ↦
          wait_from_returned attempt most (min (delay * 2) most) rounds next
            (rw (e, wait_from) at h)
    ]

leader_wait_returned :
    (config : ReconnectionConfig) (rounds : List LeaderRound) (s : State)
    → (wait_for_leader_and_reconnect config rounds s).1 ≡ thrown
    → ⊥
unfolding wait_for_leader_and_reconnect
leader_wait_returned config rounds s =
    wait_from_returned leader_round config.parent_discovery_max_delay_ms
      config.parent_discovery_interval_ms rounds s

-- The wait for the parent throws only where there is no leader to ask.
parent_wait_thrown :
    (config : ReconnectionConfig) (rounds : List ParentRound) (s : State)
    → (wait_for_parent_and_reconnect config rounds s).1 ≡ thrown
    → is_some s.node.leader ≡ false
unfolding wait_for_parent_and_reconnect
parent_wait_thrown config rounds s h = elim (Bool-cases (is_some s.node.leader)) [
  | inl e ↦ absurd (
      wait_from_returned parent_round config.parent_discovery_max_delay_ms
        config.parent_discovery_interval_ms rounds s (rw (e, wait_for_parent_and_reconnect) at h))
  | inr e ↦ e
]

fallback_thrown :
    (config : ReconnectionConfig) (lr : List LeaderRound) (pr : List ParentRound) (s : State)
    → (try_leader_fallback config lr pr s).1 ≡ thrown
    → (parent_is_leader s ≡ false) × (is_some s.node.leader ≡ false)
unfolding try_leader_fallback
fallback_thrown config lr pr s h = elim (Bool-cases (parent_is_leader s)) [
  | inl e ↦ absurd (leader_wait_returned config lr s (rw (e, try_leader_fallback) at h))
  | inr e ↦ (e, parent_wait_thrown config pr s (rw (e, try_leader_fallback) at h))
]

thrown-IsLeaderless :
    (config : ReconnectionConfig) (leader_rounds : List LeaderRound)
    (parent_rounds : List ParentRound) (s : State)
    → (handle_parent_disconnected config leader_rounds parent_rounds s).1 ≡ thrown
    → IsLeaderless config s
unfolding handle_parent_disconnected attempt_reconnection
thrown-IsLeaderless config lr pr s h =
    let t = record s { registration = reset_parent_state s.registration; reconnecting = true } in
    let tests : (s.reconnecting ≡ false)
        × (config.enabled ≡ true)
        × (config.use_leader_fallback ≡ true)
        × ((try_leader_fallback config lr pr t).1 ≡ thrown) =
      ground arith in
    let (idle, enabled, fallback, fell) = tests in
    let (other_parent, no_leader) = fallback_thrown config lr pr t fell in
    record {
      enabled = enabled;
      fallback = fallback;
      idle = idle;
      other_parent = other_parent;
      no_leader = no_leader;
    }

ignored :
    (config : ReconnectionConfig) (lr : List LeaderRound) (pr : List ParentRound) (s : State)
    → s.reconnecting ≡ true
    → handle_parent_disconnected config lr pr s ≡ (s, returned)
unfolding handle_parent_disconnected
ignored config lr pr s h = simp h

IsLeaderless-thrown :
    (config : ReconnectionConfig) (leader_rounds : List LeaderRound)
    (parent_rounds : List ParentRound) (s : State)
    → IsLeaderless config s
    → let (t, o) = handle_parent_disconnected config leader_rounds parent_rounds s in
      (o ≡ thrown) × (t.reconnecting ≡ true) × (t.node ≡ s.node) × (t.slept ≡ s.slept)
unfolding handle_parent_disconnected attempt_reconnection try_leader_fallback
    wait_for_parent_and_reconnect
IsLeaderless-thrown config lr pr s l =
    rw (l.idle, l.enabled, l.fallback, l.other_parent, l.no_leader) (refl, refl, refl, refl)

losses_ignored :
    (config : ReconnectionConfig) (later : List Loss) (s : State)
    → s.reconnecting ≡ true
    → let (u, outcomes) = losses config later s in
      All (λ o. o ≡ returned) outcomes
      × (u.reconnecting ≡ true)
      × (u.node ≡ s.node)
      × (u.slept ≡ s.slept)
unfolding losses handle_leader_disconnected
losses_ignored config [] s h = (tt, h, refl, refl)
losses_ignored config (parent_lost lr pr ∷ later) s h =
    let (a, b, c, d) = losses_ignored config later s h in
    rw (ignored config lr pr s h) ((refl, a), b, c, d)
losses_ignored config (leader_lost ∷ later) s h =
    losses_ignored config later (handle_leader_disconnected s) h

-- The loss of the parent throws exactly if reconnection and the fallback are enabled and none is under
-- way, the parent is not the leader, and the node knows no leader. Whatever losses of the parent and
-- the leader follow, the node is then left as reconnecting: each of them returns, with the node's
-- parent and leader as they were and without a pause.
pub handle_parent_disconnected_stuck :
    (config : ReconnectionConfig) (leader_rounds : List LeaderRound)
    (parent_rounds : List ParentRound) (later : List Loss) (s : State)
    → let (t, o) = handle_parent_disconnected config leader_rounds parent_rounds s in
      let (u, outcomes) = losses config later t in
      ((o ≡ thrown) ↔ IsLeaderless config s)
      × (o ≡ thrown
          → All (λ p. p ≡ returned) outcomes
            × (u.reconnecting ≡ true)
            × (u.node ≡ s.node)
            × (u.slept ≡ s.slept))
handle_parent_disconnected_stuck config lr pr later s =
    let cause = thrown-IsLeaderless config lr pr s in
    (
      (cause, λ l. (IsLeaderless-thrown config lr pr s l).0),
      λ h.
          let (_, active, node, slept) = IsLeaderless-thrown config lr pr s (cause h) in
          let (a, b, c, d) =
            losses_ignored config later (handle_parent_disconnected config lr pr s).0 active in
          (a, b, c ∙ node, d ∙ slept),
    )
