-- ===== src/Registry/AgentRegistry.antt =====
-- packages/o-agent/src/registry/agent-registry.tool.ts: the directory of live agent sessions. Times
-- are milliseconds (an ISO string of a `Date` keeps them), `now` is an argument, and whether a
-- process lives (`process.kill(pid, 0)`) is the parameter `is_pid_alive`. Of a card only the kind
-- and the user are read.
pub mod Sweep
pub mod Liveness
mod Tests
use olane.Common.{
  ℕ, suc, ◌+◌, ◌-◌, ◌*◌, Bool, true, false, not, ◌&&◌, ◌||◌, List, [], ◌∷◌, Option, none, some,
  Text, Dict, text_eq, get, set, delete, values, keep_if, length, if◌then◌else◌, ltb, is_some,
  Result, ok, err,
}

abbrev pub heartbeat_ttl_ms : ℕ
heartbeat_ttl_ms = 90000

pub record Card : Type 0 where
  pub kind : Option Text
  pub user : Option Text

pub record RegistryEntry : Type 0 where
  pub card : Card
  pub last_heartbeat_at : ℕ
  pub registering_pid : Option ℕ
  pub live : Bool

pub data Error : Type 0 where
  missing_parameters : Error

-- `{ ok, address, wasRegistered }` and `{ ok: false, reason }` come down to a Boolean.
abbrev pub State : Type 0
State = Dict RegistryEntry

unfoldable pub register : ℕ → Text → Option Card → Option ℕ → State → Result Error State
register now [] card pid entries = err missing_parameters
register now (c ∷ a) none pid entries = err missing_parameters
register now (c ∷ a) (some card) pid entries = ok (
    set (c ∷ a)
      (record { card = card; last_heartbeat_at = now; registering_pid = pid; live = true }) entries)

unfoldable pub deregister : Text → State → Result Error (State × Bool)
deregister [] entries = err missing_parameters
deregister (c ∷ a) entries = ok (delete (c ∷ a) entries, is_some (get (c ∷ a) entries))

-- `entry` is the object in the map, so the assignment to it is a `set`.
unfoldable pub heartbeat : ℕ → Text → State → Result Error (State × Bool)
heartbeat now [] entries = err missing_parameters
heartbeat now (c ∷ a) entries = elim (get (c ∷ a) entries) [
  | none ↦ ok (entries, false)
  | some entry ↦
      ok (set (c ∷ a) (record entry { last_heartbeat_at = now; live = true }) entries, true)
]

-- `wanted && actual !== wanted`: an absent or empty filter accepts, an absent field is not equal.
unfoldable pub accepts : Option Text → Option Text → Bool
accepts none actual = true
accepts (some []) actual = true
accepts (some (c ∷ s)) none = false
accepts (some (c ∷ s)) (some actual) = text_eq actual (c ∷ s)

unfoldable pub accepts_live : Option Bool → Bool → Bool
accepts_live none live = true
accepts_live (some true) live = live
accepts_live (some false) live = not live

unfoldable pub list : Option Text → Option Text → Option Bool → State → List RegistryEntry
list kind user live entries =
    keep_if (λ e. accepts kind e.card.kind && accepts user e.card.user && accepts_live live e.live)
      (values entries)

pub record Summary : Type 0 where
  pub examined : ℕ
  pub marked_dead : ℕ
  pub removed : ℕ

module _ (is_pid_alive : ℕ → Bool) (now : ℕ) where
  unfoldable pub pid_dead : RegistryEntry → Bool
  pid_dead e = elim e.registering_pid [ none ↦ false | some pid ↦ not (is_pid_alive pid) ]

  -- An age below 0 (a clock that went back) is above no bound, as an age of 0 is.
  abbrev pub age : RegistryEntry → ℕ
  age e = now - e.last_heartbeat_at

  unfoldable pub expired : RegistryEntry → Bool
  expired e = ltb (2 * heartbeat_ttl_ms) (age e) || (pid_dead e && ltb heartbeat_ttl_ms (age e))

  unfoldable pub should_be_dead : RegistryEntry → Bool
  should_be_dead e = ltb heartbeat_ttl_ms (age e) || pid_dead e

  -- One entry that stays: its new form, and whether it was marked dead now.
  unfoldable pub mark : RegistryEntry → RegistryEntry × Bool
  mark e =
      if should_be_dead e && e.live
      then (record e { live = false }, true)
      else if not (should_be_dead e) && not e.live
      then (record e { live = true }, false)
      else (e, false)

  -- The loop: what is left, how many were marked dead, how many removed.
  unfoldable pub sweep_from : State → State × ℕ × ℕ
  sweep_from [] = ([], 0, 0)
  sweep_from ((address, e) ∷ entries) =
      let (rest, marked_dead, removed) = sweep_from entries in
      let (kept, marked) = mark e in
      if expired e
      then (rest, marked_dead, removed + 1)
      else ((address, kept) ∷ rest, if marked then marked_dead + 1 else marked_dead, removed)

  unfoldable pub sweep : State → State × Summary
  sweep entries =
      let (rest, marked_dead, removed) = sweep_from entries in
      (
        rest,
        record { examined = length rest + removed; marked_dead = marked_dead; removed = removed },
      )
