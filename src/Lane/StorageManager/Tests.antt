-- ===== src/Lane/StorageManager/Tests.antt =====
-- Witnesses of the replay.
use olane.Common.{refl, [], ◌∷◌, none, some, Text, codes, Result, ok, err}
use olane.Lane.StorageManager.{execute, other, Item, Step, Lane}
use olane.Lane.StorageManager.Replay.{RunsThrough}

abbrev configured : Item Text
configured = record {
  type = execute;
  config = codes "c";
  handshake_result = none;
  task_config = some (codes "put");
  address = some (codes "o://fs");
  error = none;
}

abbrev searched : Item Text
searched = record {
  type = other (codes "search");
  config = codes "s";
  handshake_result = none;
  task_config = none;
  address = none;
  error = none;
}

abbrev lane : Lane Text
lane = record {
  input = record { intent = codes "i"; address = none; context = [] };
  sequence = searched ∷ [];
  result = none;
  cid = none;
}

abbrev refuse : Step Text → Result Text (Item Text)
refuse s = err (codes "refused")

abbrev repeat_it : Step Text → Result Text (Item Text)
repeat_it s = ok configured

all_run : RunsThrough repeat_it
all_run s = (configured, refl, refl)
