-- ===== src/Core/GracefulShutdown/Once.antt =====
-- The process is cleaned up and left at most once.
use olane.Common.{
  ℕ, ◌+◌, ◌≤◌, ◌≡◌, refl, ap, ◌∙◌, Bool, true, false, not, ◌||◌, List, [], ◌∷◌, any, if◌then◌else◌,
  arith,
}
use olane.Core.GracefulShutdown.{
  Event, signal, uncaught_exception, unhandled_rejection, race_ends, State, initial,
  perform_cleanup, is_recoverable, end_race, is_handled, handle, handle_all,
}

-- The events that ask for a shutdown.
abbrev pub asks : Event → Bool
asks (signal name) = is_handled name
asks (uncaught_exception code) = not (is_recoverable code)
asks unhandled_rejection = true
asks (race_ends is_error) = false

abbrev one : Bool → ℕ
one true = 1
one false = 0

-- The flag stands for the one cleanup, which runs until the exit.
abbrev pub IsCounted : State → Type 0
IsCounted s =
    (s.cleanups ≡ one s.is_shutting_down)
    × (s.exits + one s.is_running ≡ s.cleanups)
    × (s.timeouts ≤ s.exits)

perform_cleanup-IsCounted : (s : State) → IsCounted s → IsCounted (perform_cleanup s)
unfolding perform_cleanup
perform_cleanup-IsCounted s (c, e, t) = by_flag s.is_shutting_down refl
  where
    by_flag :
        (b : Bool)
        → s.is_shutting_down ≡ b
        → IsCounted (
            if b
            then s
            else record s { is_shutting_down = true; is_running = true; cleanups = s.cleanups + 1 })
    by_flag true q = (c, e, t)
    by_flag false q = let none_yet : s.cleanups ≡ 0 = c ∙ ap one q in (omega arith, omega arith, t)

end_race-IsCounted : (is_error : Bool) (s : State) → IsCounted s → IsCounted (end_race is_error s)
unfolding end_race
end_race-IsCounted is_error s (c, e, t) = by_flag s.is_running refl
  where
    by_flag :
        (b : Bool)
        → s.is_running ≡ b
        → IsCounted (
            if b
            then record s {
              is_running = false;
              timeouts = if is_error then s.timeouts + 1 else s.timeouts;
              exits = s.exits + 1;
            }
            else s)
    by_flag false q = (c, e, t)
    by_flag true q = let runs : one s.is_running ≡ 1 = ap one q in (c, omega arith, ground arith)

branch_IsCounted :
    (b : Bool) (s t : State) → IsCounted s → IsCounted t → IsCounted (if b then s else t)
branch_IsCounted true s t h k = h
branch_IsCounted false s t h k = k

handle-IsCounted : (e : Event) (s : State) → IsCounted s → IsCounted (handle e s)
unfolding handle
handle-IsCounted (signal name) s h =
    branch_IsCounted (is_handled name) (perform_cleanup s) s (perform_cleanup-IsCounted s h) h
handle-IsCounted (uncaught_exception code) s h =
    branch_IsCounted (is_recoverable code) s (perform_cleanup s) h (perform_cleanup-IsCounted s h)
handle-IsCounted unhandled_rejection s h = perform_cleanup-IsCounted s h
handle-IsCounted (race_ends is_error) s h = end_race-IsCounted is_error s h

handle_all-IsCounted : (es : List Event) (s : State) → IsCounted s → IsCounted (handle_all es s)
handle_all-IsCounted [] s h = h
handle_all-IsCounted (e ∷ es) s h = handle_all-IsCounted es (handle e s) (handle-IsCounted e s h)

perform_cleanup_flag : (s : State) → (perform_cleanup s).is_shutting_down ≡ true
unfolding perform_cleanup
perform_cleanup_flag s = by_flag s.is_shutting_down refl
  where
    by_flag :
        (b : Bool)
        → s.is_shutting_down ≡ b
        → (if b then s else record s {
          is_shutting_down = true;
          is_running = true;
          cleanups = s.cleanups + 1;
        }).is_shutting_down
          ≡ true
    by_flag true q = q
    by_flag false q = refl

end_race_flag :
    (is_error : Bool) (s : State) → (end_race is_error s).is_shutting_down ≡ s.is_shutting_down
unfolding end_race
end_race_flag is_error s = by_flag s.is_running
  where
    by_flag :
        (b : Bool)
        → (if b
            then record s {
              is_running = false;
              timeouts = if is_error then s.timeouts + 1 else s.timeouts;
              exits = s.exits + 1;
            }
            else s).is_shutting_down
          ≡ s.is_shutting_down
    by_flag true = refl
    by_flag false = refl

branch_flag :
    (b : Bool) (s t : State)
    → (if b then s else t).is_shutting_down ≡ (if b then s.is_shutting_down else t.is_shutting_down)
branch_flag true s t = refl
branch_flag false s t = refl

handle_flag :
    (e : Event) (s : State) → (handle e s).is_shutting_down ≡ (s.is_shutting_down || asks e)
unfolding handle
handle_flag (signal name) s =
    let f = perform_cleanup_flag s in
    branch_flag (is_handled name) (perform_cleanup s) s ∙ ground arith
handle_flag (uncaught_exception code) s =
    let f = perform_cleanup_flag s in
    branch_flag (is_recoverable code) s (perform_cleanup s) ∙ ground arith
handle_flag unhandled_rejection s = perform_cleanup_flag s ∙ ground arith
handle_flag (race_ends is_error) s = end_race_flag is_error s ∙ ground arith

handle_all_flag :
    (es : List Event) (s : State)
    → (handle_all es s).is_shutting_down ≡ (s.is_shutting_down || any asks es)
handle_all_flag [] s = ground arith
handle_all_flag (e ∷ es) s =
    let first = handle_flag e s in handle_all_flag es (handle e s) ∙ ground arith

-- Whatever signals and errors come, in any order, the cleanup is run once if any of them asks for a
-- shutdown, and never otherwise; the process is left at most once, and only after a cleanup.
pub handle_all_lem :
    (es : List Event)
    → let s = handle_all es initial in
      (s.cleanups ≡ one (any asks es)) × (s.exits ≤ s.cleanups) × (s.timeouts ≤ s.exits)
handle_all_lem es =
    let (c, e, t) = handle_all-IsCounted es initial (refl, omega arith, omega arith) in
    let flag : (handle_all es initial).is_shutting_down ≡ any asks es =
      handle_all_flag es initial in
    (c ∙ ap one flag, omega arith, t)
