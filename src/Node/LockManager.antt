-- ===== src/Node/LockManager.antt =====
-- packages/o-node/src/utils/lock-manager.ts: named locks on promises. JavaScript runs one task at a
-- time between two `await`s, so each stretch of code between them is one step. A promise is its
-- number; `resolved` holds those that were resolved.
pub mod Steps
pub mod Exclusion
pub mod Invariant
pub mod Clear
mod Tests
use olane.Common.{
  ℕ, ◌+◌, Bool, true, false, List, [], ◌∷◌, Option, none, some, Text, Dict, get, set, delete, keys,
  keep_if, map, length, if◌then◌else◌, or_default,
}

pub record Locks : Type 0 where
  pub locks : Dict ℕ
  pub lock_states : Dict Bool
  pub resolvers : Dict ℕ
  pub resolved : List ℕ
  pub next_promise : ℕ

abbrev pub empty : Locks
empty = record { locks = []; lock_states = []; resolvers = []; resolved = []; next_promise = 0 }

unfoldable pub is_locked : Text → Locks → Bool
is_locked name s = or_default (get name s.lock_states) false

-- The end of `acquire`, once the lock is free.
unfoldable pub take_lock : Text → Locks → Locks
take_lock name s = record s {
  locks = set name s.next_promise s.locks;
  lock_states = set name true s.lock_states;
  resolvers = set name s.next_promise s.resolvers;
  next_promise = s.next_promise + 1;
}

-- What a round of the `while` loop of `acquire` comes to: the lock, a promise to wait for, or a
-- round that waits for nothing, where a lock is held and has no promise.
pub data Attempt : Type 0 where
  acquired : Attempt
  wait : ℕ → Attempt
  spin : Attempt

unfoldable pub acquire : Text → Locks → Attempt × Locks
acquire name s =
    if is_locked name s
    then elim (get name s.locks) [ none ↦ (spin, s) | some p ↦ (wait p, s) ]
    else (acquired, take_lock name s)

unfoldable pub resolve_waiters : Text → Locks → Locks
resolve_waiters name s = elim (get name s.resolvers) [
  | none ↦ s
  | some p ↦ record s { resolved = p ∷ s.resolved; resolvers = delete name s.resolvers }
]

unfoldable pub release : Text → Locks → Locks
release name s =
    let t = resolve_waiters name s in record t { lock_states = set name false t.lock_states }

unfoldable pub release_all : List Text → Locks → Locks
release_all [] s = s
release_all (name ∷ names) s = release_all names (release name s)

unfoldable pub clear_all : Locks → Locks
clear_all s =
    let t = release_all (keys s.lock_states) s in
    record t { locks = []; lock_states = []; resolvers = [] }

pub record Stats : Type 0 where
  pub total_locks : ℕ
  pub active_locks : ℕ
  pub lock_names : List Text

unfoldable pub get_stats : Locks → Stats
get_stats s =
    let active = keep_if (λ e. e.1) s.lock_states in
    record {
      total_locks = length s.lock_states;
      active_locks = length active;
      lock_names = keys active;
    }
