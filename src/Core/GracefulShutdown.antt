-- ===== src/Core/GracefulShutdown.antt =====
-- packages/o-core/src/core/graceful-shutdown.ts: the shutdown of a process. The cleanup and its timeout
-- are a parameter: which of them ends the race, and how. `exits` counts the calls of `process.exit`.
pub mod Once
mod Tests
use olane.Common.{
  ℕ, ◌+◌, Bool, true, false, not, ◌||◌, List, [], ◌∷◌, Option, none, some, Text, codes, text_eq,
  if◌then◌else◌, Result, ok, err,
}

pub data Event : Type 0 where
  signal : Text → Event
  uncaught_exception : Option Text → Event
  unhandled_rejection : Event
  -- The race between the cleanup and the timeout ends, without an error or with one.
  race_ends : Bool → Event

pub record State : Type 0 where
  pub is_shutting_down : Bool
  pub is_running : Bool
  pub cleanups : ℕ
  pub timeouts : ℕ
  pub exits : ℕ

abbrev pub initial : State
initial = record {
  is_shutting_down = false;
  is_running = false;
  cleanups = 0;
  timeouts = 0;
  exits = 0;
}

unfoldable pub perform_cleanup : State → State
perform_cleanup s =
    if s.is_shutting_down
    then s
    else record s { is_shutting_down = true; is_running = true; cleanups = s.cleanups + 1 }

abbrev pub is_recoverable : Option Text → Bool
is_recoverable none = false
is_recoverable (some code) =
    text_eq code (codes "WS_ERR_INVALID_CLOSE_CODE") || text_eq code (codes "WS_ERR_EXPECTED")

-- `onTimeout` is called for every error.
unfoldable pub end_race : Bool → State → State
end_race is_error s =
    if s.is_running
    then record s {
      is_running = false;
      timeouts = if is_error then s.timeouts + 1 else s.timeouts;
      exits = s.exits + 1;
    }
    else s

-- `SIGINT`, `SIGTERM` and `SIGUSR2` have handlers.
abbrev pub is_handled : Text → Bool
is_handled name =
    text_eq name (codes "SIGINT")
    || text_eq name (codes "SIGTERM")
    || text_eq name (codes "SIGUSR2")

unfoldable pub handle : Event → State → State
handle (signal name) s = if is_handled name then perform_cleanup s else s
handle (uncaught_exception code) s = if is_recoverable code then s else perform_cleanup s
handle unhandled_rejection s = perform_cleanup s
handle (race_ends is_error) s = end_race is_error s

abbrev pub handle_all : List Event → State → State
handle_all [] s = s
handle_all (e ∷ es) s = handle_all es (handle e s)

-- `createMultiResourceCleanup`: every resource is stopped, and an error of one is only logged. The
-- resources that were asked to stop, and those that did.
abbrev pub keep_stopped : Text → Result Text Unit → List Text → List Text
keep_stopped r (ok u) rs = r ∷ rs
keep_stopped r (err e) rs = rs

unfoldable pub multi_resource_cleanup :
    (Text → Result Text Unit) → List Text → List Text × List Text
multi_resource_cleanup stop [] = ([], [])
multi_resource_cleanup stop (r ∷ rs) =
    let (asked, stopped) = multi_resource_cleanup stop rs in
    (r ∷ asked, keep_stopped r (stop r) stopped)
