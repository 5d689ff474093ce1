-- ===== src/Node/Registration/Flights.antt =====
-- Attempts to register with the parent that overlap: each is in flight from its start to its end.
use olane.Common.{ℕ, zero, suc, ◌+◌, ◌-◌, ◌≤◌, ◌≡◌, Option, none, some, Text, arith}
use olane.Node.Registration.{
  registering, Registration, initial, Node, Start, call_parent, start_parent, finish_parent,
  reset_parent_state, can_register_parent,
}

-- A manager and the number of calls of the parent that are in flight.
pub record Config : Type 0 where
  pub manager : Registration
  pub in_flight : ℕ

pub data Event : Type 0 where
  start : Event
  finish : Option Text → Event
  reset : Event

abbrev pub is_call : Start → ℕ
is_call call_parent = 1
is_call _ = 0

unfoldable pub step : Node → Event → Config → Config
step n start c = record {
  manager = (start_parent n c.manager).1;
  in_flight = c.in_flight + is_call (start_parent n c.manager).0;
}
step n (finish answer) (c) = record {
  manager = elim c.in_flight [ zero ↦ c.manager | suc k ↦ finish_parent answer c.manager ];
  in_flight = c.in_flight - 1;
}
step n reset c = record c { manager = reset_parent_state c.manager }

-- One call is in flight exactly while the state is `registering`, and never two.
pub record IsSingle (c : Config) : Type 0 where
  pub at_most_one : c.in_flight ≤ 1
  pub while_registering : c.in_flight ≡ 1 → c.manager.parent_state ≡ registering
  pub registering_flies : c.manager.parent_state ≡ registering → c.in_flight ≡ 1

-- If one call at most is in flight, and one exactly while the state is `registering`, then so it is
-- after a start or an end of a call, and after a reset with no call in flight.
pub step-IsSingle :
    (n : Node) (e : Event) (c : Config)
    → (e ≡ reset → c.in_flight ≡ 0)
    → IsSingle c
    → IsSingle (step n e c)
unfolding step start_parent finish_parent reset_parent_state can_register_parent
step-IsSingle n start c h v = ground arith
step-IsSingle n (finish none) c h v = ground arith
step-IsSingle n (finish (some e)) c h v = ground arith
step-IsSingle n reset c h v = ground arith

-- A reset while a call is in flight lets a second attempt start beside it, for a node that can call
-- its parent.
pub reset_overlaps :
    (n : Node) (c : Config)
    → IsSingle c
    → c.in_flight ≡ 1
    → (start_parent n initial).0 ≡ call_parent
    → (step n start (step n reset c)).in_flight ≡ 2
unfolding step start_parent reset_parent_state can_register_parent
reset_overlaps n c v f h = ground arith
