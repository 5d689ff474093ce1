-- ===== src/Node/Registration/Tests.antt =====
-- Witnesses of the registration manager.
use olane.Common.{◌≡◌, refl, false, Option, none, some, Text, codes, [], ◌∷◌, text_eq, arith}
use olane.Core.Address.{Address, libp2p, leader, libp2p_transports}
use olane.Node.Registration.{
  registering, initial, Node, start_parent, finish_parent, can_register_parent, reset_parent_state,
}
use olane.Node.Registration.Transitions.{Reconnect}
use olane.Node.Registration.Flights.{Config, Event, IsSingle, step, step-IsSingle, reset_overlaps}

run : Unit {0}
unfolding text_eq libp2p_transports start_parent finish_parent can_register_parent step
    reset_parent_state
run = tt

abbrev here : Address
here = record {
  value = codes "o://leader/p";
  transports = record { value = codes "/memory/1"; type = libp2p } ∷ [];
}

abbrev node : Node
node = record { is_leader_node = false; parent = some here; leader = some leader }

abbrev never : Reconnect
never r = (none, r)

abbrev refused : Option Text
refused = some (codes "refused")

abbrev idle : Config
idle = record { manager = initial; in_flight = 0 }

idle-IsSingle : IsSingle idle
idle-IsSingle = ground arith

step-IsSingle_example : IsSingle (step node Event.start idle)
step-IsSingle_example = step-IsSingle node Event.start idle (λ e. refl) idle-IsSingle

abbrev flying : Config
flying = record { manager = record initial { parent_state = registering }; in_flight = 1 }

flying-IsSingle : IsSingle flying
flying-IsSingle = ground arith

reset_overlaps_example : (step node Event.start (step node Event.reset flying)).in_flight ≡ 2
unfolding run
reset_overlaps_example = reset_overlaps node flying flying-IsSingle refl refl
