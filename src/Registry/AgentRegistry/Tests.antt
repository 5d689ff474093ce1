-- ===== src/Registry/AgentRegistry/Tests.antt =====
-- Witnesses and a small run of the agent directory.
use olane.Common.{
  ℕ, ◌+◌, ◌≤◌, ◌≡◌, refl, true, false, [], ◌∷◌, none, some, Text, codes, text_eq, get, set, delete,
  length, All, ok, arith,
}
use olane.Registry.AgentRegistry.{
  State, RegistryEntry, register, deregister, heartbeat, accepts, accepts_live, list, pid_dead,
  expired, should_be_dead, mark, sweep_from, sweep,
}
use olane.Registry.AgentRegistry.Sweep.{IsCurrent, sweep-IsCurrent}
use olane.Registry.AgentRegistry.Liveness.{heartbeat_keeps_alive}

run : Unit {0}
unfolding text_eq get set delete register deregister heartbeat accepts accepts_live list pid_dead
    expired should_be_dead mark sweep_from sweep
run = tt

abbrev ann : Text
ann = codes "o://ann/cli/1"

abbrev bob : Text
bob = codes "o://bob/cli/2"

abbrev entry : ℕ → RegistryEntry
entry at = record {
  card = record { kind = some (codes "cli"); user = none };
  last_heartbeat_at = at;
  registering_pid = none;
  live = true;
}

abbrev two : State
two = (ann, entry 0) ∷ (bob, entry 100000) ∷ []

one_swept : (sweep (λ p. true) 200000 two).0 ≡ (bob, record (entry 100000) { live = false }) ∷ []
unfolding run
one_swept = refl

listed : length (list (some (codes "cli")) none (some true) two) ≡ 2
unfolding run
listed = refl

sweep-IsCurrent_example :
    All (λ a. IsCurrent (λ p. true) 200000 a.1) (sweep (λ p. true) 200000 two).0
    × ((address : Text) (e : RegistryEntry)
        → get address two ≡ some e
        → 200000 ≤ e.last_heartbeat_at + 90000
        → (d : RegistryEntry) × (get address (sweep (λ p. true) 200000 two).0 ≡ some d)
          × (d.last_heartbeat_at ≡ e.last_heartbeat_at)
          × (d.card ≡ e.card))
sweep-IsCurrent_example = sweep-IsCurrent (λ p. true) 200000 two

heartbeat_keeps_alive_example :
    (after : State) × (heartbeat 150000 ann two ≡ ok (after, true))
    × (get ann (sweep (λ p. true) 200000 after).0 ≡ some (entry 150000))
unfolding run
heartbeat_keeps_alive_example =
    heartbeat_keeps_alive (λ p. true) 150000 200000 ann two (entry 0) (λ e. cc) refl refl
      (omega arith)
