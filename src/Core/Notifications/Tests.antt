-- ===== src/Core/Notifications/Tests.antt =====
-- Witnesses and runs of the notifications.
use olane.Common.{
  ◌≡◌, refl, List, [], ◌∷◌, none, some, Text, codes, text_eq, starts_with, strip_prefix, keep_if,
}
use olane.Core.Address.{Address, address}
use olane.Core.Notifications.Filters.{
  Event, Regex, of_child, address_matches, matches_filter, get_event_address,
}
use olane.Core.Notifications.{Subscription, empty, passes, emit}
use olane.Core.Notifications.Delivery.{Call, listen, unlisten, calls, heard, emit_lem}

abbrev no_regex : Regex
no_regex pattern flags text = none

abbrev joined : Text
joined = codes "child:joined"

abbrev anyone : Subscription
anyone = record { id = 1; event_type = joined; filter = none }

abbrev of_leader : Subscription
of_leader = record {
  id = 2;
  event_type = joined;
  filter = some (record {
    event_types = none;
    address_pattern = some (codes "o://leader");
    custom_filter = none;
  });
}

abbrev parted : Subscription
parted = record { id = 3; event_type = codes "child:left"; filter = none }

abbrev history : List Call
history = listen anyone ∷ listen parted ∷ listen of_leader ∷ unlisten anyone ∷ listen anyone ∷ []

abbrev leader_joined : Event
leader_joined = record {
  type = joined;
  subject = of_child (address (codes "o://leader")) (address (codes "o://root"));
}

order_of_delivery :
    keep_if
      (λ x. passes no_regex leader_joined x.filter)
      (keep_if (λ x. text_eq x.event_type joined) (heard history []))
    ≡ of_leader ∷ anyone ∷ []
unfolding matches_filter get_event_address address_matches text_eq starts_with strip_prefix
order_of_delivery = refl

emit_lem_example :
    emit no_regex leader_joined (calls history empty)
    ≡ keep_if
        (λ x. passes no_regex leader_joined x.filter)
        (keep_if (λ x. text_eq x.event_type joined) (heard history []))
emit_lem_example = emit_lem no_regex leader_joined history

abbrev child : Address
child = address (codes "o://leader/tools")

abbrev leader : Address
leader = address (codes "o://leader")
