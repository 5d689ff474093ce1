-- ===== src/Lane/StorageManager.antt =====
-- packages/o-lane/src/storage/o-lane.storage-manager.ts: the content id of a lane, saving it, and
-- replaying it from storage. The hash of the lane's input, the storage and the capabilities are
-- parameters: what a put or a get comes to, and what a capability makes of a step, whatever the node and
-- the history that the source adds to the step. `C` is the type of a
-- capability's configuration.
pub mod Replay
mod Tests
use olane.Common.{
  ℕ, Bool, true, false, not, List, [], ◌∷◌, ◌++◌, Option, none, some, Text, codes, if◌then◌else◌,
  is_some, Result, ok, err, ◌>>=◌,
}

pub data Problem : Type 0 where
  invalid_state not_found invalid_lane : Problem
  thrown : Text → Problem

pub data Kind : Type 0 where
  execute stop : Kind
  other : Text → Kind

pub record CidInput : Type 0 where
  pub intent : Text
  pub address : Option Text
  pub context : Text

-- What comes of a put.
abbrev pub after_put : Text → Result Text Unit → Result Problem Text
after_put cid (ok u) = ok cid
after_put cid (err e) = err (thrown e)

abbrev pub is_stop : Kind → Bool
is_stop stop = true
is_stop kind = false

module _ (C : Type 0) where
  -- What a capability came to; its result may hold the task that was run.
  pub record Item : Type 0 where
    pub type : Kind
    pub config : C
    pub handshake_result : Option Text
    pub task_config : Option Text
    pub address : Option Text
    pub error : Option Text

  -- A step that is run again: an `EXECUTE` with the stored execution data among its parameters.
  pub record Step : Type 0 where
    pub config : C
    pub is_replay : Bool
    pub handshake_result : Option Text
    pub task_config : Option Text
    pub address : Option Text
    pub error : Option Text

  pub record Lane : Type 0 where
    pub input : CidInput
    pub sequence : List (Item)
    pub result : Option (Item)
    pub cid : Option Text

  -- How the replay ended, the steps that were run, and the lane.
  pub record Replayed : Type 0 where
    pub outcome : Result Problem (Option Item)
    pub steps : List (Step)
    pub lane : Lane

module _ {C : Type 0} where
  abbrev pub cid_or : (CidInput → Text) → Lane C → Option Text → Text × Lane C
  cid_or hash lane (some cid) = (cid, lane)
  cid_or hash lane none = let cid = hash lane.input in (cid, record lane { cid = some cid })

  unfoldable pub generate_cid : (CidInput → Text) → Lane C → Text × Lane C
  generate_cid hash lane = cid_or hash lane lane.cid

  unfoldable pub clear_cache : Lane C → Lane C
  clear_cache lane = record lane { cid = none }

  -- The id, or the error; what is put under which key, if anything; and the lane.
  unfoldable pub save :
      (CidInput → Text)
      → (Lane C → Text)
      → (Text → Text → Result Text Unit)
      → Bool
      → Lane C
      → Result Problem Text × (List (Text × Text) × Lane C)
  save hash serialize put is_running lane =
      let (cid, after) = generate_cid hash lane in
      if is_running
      then (after_put cid (put cid (serialize after)), ((cid, serialize after) ∷ [], after))
      else (err invalid_state, ([], after))

  unfoldable pub should_replay : Item C → Bool
  should_replay i = is_some i.task_config

  unfoldable pub step_of : Item C → Step C
  step_of i = record {
    config = i.config;
    is_replay = true;
    handshake_result = i.handshake_result;
    task_config = i.task_config;
    address = i.address;
    error = i.error;
  }

  unfoldable pub add_sequence : Item C → Lane C → Lane C
  add_sequence i lane = record lane { sequence = lane.sequence ++ i ∷ [] }

  abbrev pub then_step : Step C → Replayed C → Replayed C
  then_step s r = record r { steps = s ∷ r.steps }

  -- An error or a `STOP` ends the replay.
  abbrev pub ran : Lane C → Result Text (Item C) → (Item C → Replayed C) → Replayed C
  ran lane (err e) next = record { outcome = err (thrown e); steps = []; lane = lane }
  ran lane (ok r) next =
      if is_stop r.type
      then record { outcome = ok (some r); steps = []; lane = add_sequence r lane }
      else next r

  module _ (do_capability : Step C → Result Text (Item C)) where
    unfoldable pub replay_from : List (Item C) → Lane C → Replayed C
    replay_from [] lane = record { outcome = ok lane.result; steps = []; lane = lane }
    replay_from (i ∷ stored) lane =
        let cached = replay_from stored (add_sequence i lane) in
        if should_replay i
        then then_step (step_of i)
            (ran lane (do_capability (step_of i)) (λ r. replay_from stored (add_sequence r lane)))
        else cached

    -- The storage has nothing, something without a sequence, or a sequence.
    unfoldable pub replay : Result Text (Option (Option (List (Item C)))) → Lane C → Replayed C
    replay (err e) lane = record { outcome = err (thrown e); steps = []; lane = lane }
    replay (ok none) lane = record { outcome = err not_found; steps = []; lane = lane }
    replay (ok (some none)) lane = record { outcome = err invalid_lane; steps = []; lane = lane }
    replay (ok (some (some stored))) lane = replay_from stored lane
