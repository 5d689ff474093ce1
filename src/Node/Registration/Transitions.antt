-- ===== src/Node/Registration/Transitions.antt =====
-- What a registration that nothing interrupts comes to.
use olane.Common.{◌≡◌, ◌⊎◌, true, false, Option, none, some, Text, arith}
use olane.Core.Address.{Address}
use olane.Node.Registration.{
  RegistrationState, registered, failed, Registration, Node, can_register, needs_transports,
  can_register_parent, can_register_leader, is_fully_registered, start_parent, finish_parent,
  register_parent, start_leader, finish_leader, register_leader, reset_parent_state,
  reset_leader_state, reset_all,
}

abbrev pub Reconnect : Type 0
Reconnect = Registration → Option Text × Registration

-- How an attempt that calls out ends.
abbrev pub Ended : Option Text → RegistrationState → Option Text → Type 0
Ended none state problem = (state ≡ registered) × (problem ≡ none)
Ended (some e) state problem = (state ≡ failed) × (problem ≡ some e)

-- A node whose parent can be called: the attempt ends in `registered` or in `failed` with the error
-- that is also thrown, never in `registering`; where an attempt is under way or done, nothing happens
-- and nothing is thrown. The leader's half is untouched either way.
pub register_parent_lem :
    (n : Node) (p : Address) (answer : Option Text) (reconnect : Reconnect) (r : Registration)
    → n.is_leader_node ≡ false
    → n.parent ≡ some p
    → needs_transports n p ≡ false
    → let (thrown, s) = register_parent n answer reconnect r in
      ((can_register r.parent_state ≡ true)
          × Ended answer s.parent_state s.parent_error
          × (thrown ≡ answer)
          × (s.leader_state ≡ r.leader_state)
        ⊎ (can_register r.parent_state ≡ false) × (s ≡ r) × (thrown ≡ none))
unfolding register_parent start_parent finish_parent can_register_parent
register_parent_lem n p none reconnect r l e t = ground arith
register_parent_lem n p (some x) reconnect r l e t = ground arith

-- From a reset, a registration with the parent and then with the leader that both succeed leaves the
-- node fully registered.
pub register_both :
    (n : Node) (p q : Address) (reconnect : Reconnect) (r : Registration)
    → n.is_leader_node ≡ false
    → n.parent ≡ some p
    → n.leader ≡ some q
    → needs_transports n p ≡ false
    → is_fully_registered n
        (register_leader n none (register_parent n none reconnect (reset_all r)).1).1
      ≡ true
unfolding register_parent start_parent finish_parent can_register_parent register_leader
    start_leader finish_leader can_register_leader reset_all reset_parent_state reset_leader_state
    is_fully_registered
register_both n p q reconnect r l e f t = ground arith
