-- ===== src/Core/Notifications.antt =====
-- packages/o-core/src/core/lib/o-notification.manager.ts: subscriptions and the events that reach
-- them. The listeners of the `EventTarget` are a list in the order they were added, each with the
-- subscription that its wrapped handler belongs to; a delivery is the call of a handler, whose errors
-- are only logged. The id of a subscription is what tells the objects apart.
pub mod Filters
pub mod Delivery
pub mod Teardown
pub mod Wildcards
mod Tests
use olane.Common.{
  ℕ, Bool, true, false, not, ◌&&◌, ◌||◌, List, [], ◌∷◌, ◌++◌, Option, none, some, Text, codes,
  text_eq, Dict, get, set, delete, values, any, keep_if, if◌then◌else◌, or_default, length, ◌==◌,
}
use olane.Core.Address.{Address}
use olane.Core.Notifications.Filters.{Event, EventFilter, Regex, matches_filter}

pub record Subscription : Type 0 where
  pub id : ℕ
  pub event_type : Text
  pub filter : Option EventFilter

pub record State : Type 0 where
  pub subscriptions : Dict (List Subscription)
  pub listeners : List Subscription

abbrev pub empty : State
empty = record { subscriptions = []; listeners = [] }

abbrev pub subscribed : Text → State → List Subscription
subscribed t s = or_default (get t s.subscriptions) []

-- A fresh id comes from `uuid`.
unfoldable pub on : Subscription → State → State
on x s = record {
  subscriptions = set x.event_type (subscribed x.event_type s ++ x ∷ []) s.subscriptions;
  listeners = s.listeners ++ x ∷ [];
}

abbrev pub same_id : Subscription → Subscription → Bool
same_id x y = x.id == y.id

-- `removeEventListener(subscription.eventType, wrappedHandler)`.
abbrev pub same_listener : Subscription → Subscription → Bool
same_listener x y = text_eq x.event_type y.event_type && same_id x y

-- The set of a type, dropped when it is empty.
abbrev pub put_back : Text → List Subscription → Dict (List Subscription) → Dict (List Subscription)
put_back t [] m = delete t m
put_back t (x ∷ xs) m = set t (x ∷ xs) m

abbrev pub off_among : Subscription → State → Option (List Subscription) → State
off_among x s none = s
off_among x s (some xs) = record {
  subscriptions = put_back x.event_type (keep_if (λ y. not (same_id x y)) xs) s.subscriptions;
  listeners = keep_if (λ y. not (same_listener x y)) s.listeners;
}

unfoldable pub off : Subscription → State → State
off x s = off_among x s (get x.event_type s.subscriptions)

abbrev pub passes : Regex → Event → Option EventFilter → Bool
passes regex e none = true
passes regex e (some f) = matches_filter regex e f

-- The handlers that an event is delivered to, in order.
unfoldable pub emit : Regex → Event → State → List Subscription
emit regex e s =
    keep_if (λ x. passes regex e x.filter) (keep_if (λ x. text_eq x.event_type e.type) s.listeners)

abbrev pub concat : List (List Subscription) → List Subscription
concat [] = []
concat (xs ∷ rest) = xs ++ concat rest

unfoldable pub get_subscriptions : Option Text → State → List Subscription
get_subscriptions none s = concat (values s.subscriptions)
get_subscriptions (some t) s = subscribed t s

unfoldable pub off_all : List Subscription → State → State
off_all [] s = s
off_all (x ∷ xs) s = off_all xs (off x s)

unfoldable pub teardown : State → State
teardown s = record (off_all (get_subscriptions none s) s) { subscriptions = [] }
