-- ===== src/Node/Reconnection/Rounds.antt =====
-- What the rounds of a wait have in common.
use olane.Common.{
  ℕ, ◌*◌, min, ◌≡◌, refl, Bool, true, false, ◌||◌, List, [], ◌∷◌, ◌++◌, Option, none, some, Text,
  text_eq, if◌then◌else◌, is_some, Bool-cases, inl, inr, arith,
}
use olane.Core.Address.{Address, leader_value}
use olane.Node.Registration
use olane.Node.Registration.{
  Registration, is_fully_registered, register_parent, start_parent, register_leader, start_leader,
  reset_all, needs_transports,
}
use olane.Node.Reconnection.{
  State, LeaderRound, ParentRound, no_wait, conclude, conclude_with_leader, leader_round, is_usable,
  adopt_parent, register_with_found, parent_round, returned, wait_from,
}

-- The state that a wait may return in.
abbrev pub IsReconnected : State → Type 0
IsReconnected s = (is_fully_registered s.node s.registration ≡ true) × (s.reconnecting ≡ false)

abbrev pub value_is_leader : Option Address → Bool
value_is_leader none = false
value_is_leader (some p) = text_eq p.value leader_value

-- A node that has a parent and a leader to come back to; `to_leader` if the one is the other.
abbrev pub IsReady : Bool → Registration.Node → Type 0
IsReady to_leader n =
    (n.is_leader_node ≡ false)
    × (is_some n.parent ≡ true)
    × (is_some n.leader ≡ true)
    × (to_leader ≡ true → value_is_leader n.parent ≡ true)

-- What a round has to show: if it ends the wait, the node is connected again, and it leaves the node
-- one that can come back.
abbrev pub IsSound : Bool → State × Bool → Type 0
IsSound to_leader z = (z.1 ≡ true → IsReconnected z.0) × IsReady to_leader z.0.node

module _ (to_leader : Bool) where
  goes_on : (s : State) → IsReady to_leader s.node → IsSound to_leader (s, false)
  goes_on s ready = (λ e. ground arith, ready)

  either :
      (b : Bool) (x y : State × Bool)
      → IsSound to_leader x
      → IsSound to_leader y
      → IsSound to_leader (if b then x else y)
  either true x y p q = p
  either false x y p q = q

  conclude-IsSound : (s : State) → IsReady to_leader s.node → IsSound to_leader (conclude s)
  unfolding conclude
  conclude-IsSound s ready = elim (Bool-cases (is_fully_registered s.node s.registration)) [
    | inl full ↦ rw full (λ e. (full, refl), ready)
    | inr part ↦ rw part (goes_on s ready)
  ]

  conclude_with_leader-IsSound :
      (answer : Option Text) (s : State)
      → IsReady to_leader s.node
      → IsSound to_leader (conclude_with_leader answer s)
  unfolding conclude_with_leader
  conclude_with_leader-IsSound answer s ready =
      let t = record s { registration = (register_leader s.node answer s.registration).1 } in
      either (is_some (register_leader s.node answer s.registration).0) (t, false) (conclude t)
        (goes_on t ready) (conclude-IsSound t ready)

  pub leader_round-IsSound :
      (round : LeaderRound) (s : State)
      → IsReady to_leader s.node
      → IsSound to_leader (leader_round round s)
  unfolding leader_round
  leader_round-IsSound round s ready =
      let step = register_parent s.node round.parent_answer no_wait (reset_all s.registration) in
      let t = record s { registration = step.1 } in
      let last = conclude_with_leader round.leader_answer t in
      either (is_some round.ping) (s, false) (if is_some step.0 then (t, false) else last)
        (goes_on s ready)
        (either (is_some step.0) (t, false) last (goes_on t ready)
          (conclude_with_leader-IsSound round.leader_answer t ready))

  register_with_found-IsSound :
      (round : ParentRound) (s : State)
      → IsReady to_leader s.node
      → IsSound to_leader (register_with_found round s)
  unfolding register_with_found
  register_with_found-IsSound round s ready =
      let step = register_parent s.node round.parent_answer no_wait s.registration in
      let t = record s { registration = step.1 } in
      either (is_some step.0 || is_some round.ping) (t, false)
        (conclude_with_leader round.leader_answer t) (goes_on t ready)
        (conclude_with_leader-IsSound round.leader_answer t ready)

pub parent_round-IsSound :
    (round : ParentRound) (s : State) → IsReady false s.node → IsSound false (parent_round round s)
unfolding parent_round adopt_parent
parent_round-IsSound round s ready = rw ready.1 (found round.identified)
  where
    found :
        (o : Option (Text × List Text))
        → IsSound false (elim o [
          | none ↦ (s, false)
          | some (value, ts) ↦
              if is_usable value ts
              then register_with_found round (adopt_parent value ts s)
              else (s, false)
        ])
    found none = goes_on false s ready
    found (some (value, ts)) =
        let t = adopt_parent value ts s in
        either false (is_usable value ts) (register_with_found round t) (s, false)
          (register_with_found-IsSound false round t (ready.0, refl, ready.2, λ e. ground arith))
          (goes_on false s ready)

module _ {ℓ} {R : Type ℓ} (attempt : R → State → State × Bool) (to_leader : Bool)
    (is_sound : (r : R) (s : State)
      → IsReady to_leader s.node
      → IsSound to_leader (attempt r s)) where
  -- Whatever the rounds before it did, a round that always succeeds makes the wait return.
  pub wait_from_returns :
      (good : R)
      → ((s : State) → IsReady to_leader s.node → (attempt good s).1 ≡ true)
      → (before after : List R) (most delay : ℕ) (s : State) → IsReady to_leader s.node
      → let (t, o) = wait_from attempt most delay (before ++ good ∷ after) s in
        (o ≡ returned) × IsReconnected t
  unfolding wait_from
  wait_from_returns good succeeds [] after most delay s ready =
      rw (succeeds s ready) (refl, (is_sound good s ready).0 (succeeds s ready))
  wait_from_returns good succeeds (r ∷ before) after most delay s ready =
      let t = (attempt r s).0 in
      let rest =
        wait_from_returns good succeeds before after most (min (delay * 2) most)
          (record t { slept = t.slept ++ min delay most ∷ [] }) (is_sound r s ready).1 in
      elim (Bool-cases (attempt r s).1) [
        | inl e ↦ rw e (refl, (is_sound r s ready).0 e)
        | inr e ↦ rw e rest
      ]
