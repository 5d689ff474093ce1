-- ===== src/Core/GracefulShutdown/Tests.antt =====
-- Witnesses of the shutdown.
use olane.Common.{◌≤◌, ◌≡◌, true, List, [], ◌∷◌, some, codes, text_eq}
use olane.Core.GracefulShutdown.{
  Event, signal, uncaught_exception, unhandled_rejection, race_ends, initial, handle_all,
}
use olane.Core.GracefulShutdown.Once.{handle_all_lem}

abbrev events : List Event
events =
    uncaught_exception (some (codes "WS_ERR_EXPECTED"))
    ∷ signal (codes "SIGINT")
    ∷ signal (codes "SIGTERM")
    ∷ race_ends true
    ∷ unhandled_rejection
    ∷ []

handle_all_lem_example :
    let s = handle_all events initial in
    (s.cleanups ≡ 1) × (s.exits ≤ s.cleanups) × (s.timeouts ≤ s.exits)
unfolding text_eq
handle_all_lem_example = handle_all_lem events
