-- ===== src/Lane/StorageManager/Replay.antt =====
-- What a replay runs, and what it leaves in the sequence.
use olane.Common.{
  ◌≤◌, ◌+◌, ◌≡◌, refl, ap, Bool, true, false, List, [], ◌∷◌, ◌++◌, Text, map, keep_if, length,
  length-append, if◌then◌else◌, Result, ok, arith,
}
use olane.Lane.StorageManager.{
  Item, Step, Lane, Replayed, is_stop, should_replay, step_of, add_sequence, then_step, replay_from,
}

either_branch :
    {A : Type 0} (P : A → Type 0) (b : Bool) {x y : A}
    → (b ≡ true → P x)
    → (b ≡ false → P y)
    → P (if b then x else y)
either_branch P true p q = p refl
either_branch P false p q = q refl

module _ {C : Type 0} where
  -- The steps are the first of those for the stored capabilities that hold a task; what is added to the
  -- sequence is at most one capability for each that is stored.
  abbrev pub Kept : List (Item C) → Lane C → Replayed C → Type 0
  Kept stored lane r =
      ((rest : List (Step C)) × (r.steps ++ rest ≡ map step_of (keep_if should_replay stored)))
      × ((grown : List (Item C)) × (r.lane.sequence ≡ lane.sequence ++ grown)
          × (length grown ≤ length stored))

  abbrev pub AllRun : List (Item C) → Lane C → Replayed C → Type 0
  AllRun stored lane r =
      (r.outcome ≡ ok lane.result)
      × (r.steps ≡ map step_of (keep_if should_replay stored))
      × (length r.lane.sequence ≡ length lane.sequence + length stored)

  run_one :
      (i j : Item C) (stored : List (Item C)) (lane : Lane C) (r : Replayed C)
      → should_replay i ≡ true
      → AllRun stored (add_sequence j lane) r
      → AllRun (i ∷ stored) lane (then_step (step_of i) r)
  unfolding add_sequence
  run_one i j stored lane r e (o, p, n) =
      let l = length-append {0} lane.sequence (j ∷ []) in
      (o, rw e (ap (◌∷◌ (step_of i)) p), omega arith)

  cached_one :
      (i : Item C) (stored : List (Item C)) (lane : Lane C) (r : Replayed C)
      → should_replay i ≡ false
      → AllRun stored (add_sequence i lane) r
      → AllRun (i ∷ stored) lane r
  unfolding add_sequence
  cached_one i stored lane r e (o, p, n) =
      let l = length-append {0} lane.sequence (i ∷ []) in (o, rw e p, omega arith)

  module _ (do_capability : Step C → Result Text (Item C)) where
    -- No capability fails or stops.
    abbrev pub RunsThrough : Type 0
    RunsThrough = (s : Step C) → (j : Item C) × (do_capability s ≡ ok j) × (is_stop j.type ≡ false)

    -- Where no capability fails or stops, a replay runs every stored capability that holds a task, adds one
    -- to the sequence for each that is stored, and returns the lane's result.
    pub replay_from_all :
        (stored : List (Item C)) (lane : Lane C)
        → RunsThrough
        → AllRun stored lane (replay_from do_capability stored lane)
    unfolding replay_from add_sequence
    replay_from_all [] lane h = (refl, refl, omega arith)
    replay_from_all (i ∷ stored) lane h =
        either_branch (AllRun (i ∷ stored) lane) (should_replay i)
          (λ e.
            let (j, q, n) = h (step_of i) in
            let rest = replay_from_all stored (add_sequence j lane) h in
            rw (q, n)
              (run_one i j stored lane (replay_from do_capability stored (add_sequence j lane)) e
                rest))
          (λ e.
            cached_one i stored lane (replay_from do_capability stored (add_sequence i lane)) e
              (replay_from_all stored (add_sequence i lane) h))
