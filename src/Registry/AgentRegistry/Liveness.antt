-- ===== src/Registry/AgentRegistry/Liveness.antt =====
-- An agent that keeps beating stays listed and live.
use olane.Common.{
  ℕ, ◌+◌, ◌≤◌, ◌≡◌, refl, ap, ◌∙◌, ◌≢◌, Bool, true, false, [], ◌∷◌, some, Text, get, set,
  get-set_self, arith, ok,
}
use olane.Registry.AgentRegistry.{
  State, RegistryEntry, heartbeat_ttl_ms, heartbeat, pid_dead, expired, should_be_dead, mark, sweep,
}
use olane.Registry.AgentRegistry.Sweep.{get-sweep}

module _ (is_pid_alive : ℕ → Bool) (now : ℕ) where
  fresh :
      (e : RegistryEntry)
      → now ≤ e.last_heartbeat_at + heartbeat_ttl_ms
      → pid_dead is_pid_alive now e ≡ false
      → (expired is_pid_alive now e ≡ false) × (should_be_dead is_pid_alive now e ≡ false)
  unfolding expired should_be_dead
  fresh e h alive = rw alive (ground arith, ground arith)

-- After a heartbeat of a listed agent whose process lives, every sweep within the time to live
-- keeps the agent listed and live.
pub heartbeat_keeps_alive :
    (is_pid_alive : ℕ → Bool) (beat now : ℕ) (address : Text) (entries : State) (e : RegistryEntry)
    → address ≢ []
    → get address entries ≡ some e
    → pid_dead is_pid_alive now e ≡ false
    → now ≤ beat + heartbeat_ttl_ms
    → (after : State) × (heartbeat beat address entries ≡ ok (after, true))
      × (get address (sweep is_pid_alive now after).0
          ≡ some (record e { last_heartbeat_at = beat; live = true }))
unfolding heartbeat
heartbeat_keeps_alive is_pid_alive beat now [] entries e n h alive within = absurd (n refl)
heartbeat_keeps_alive is_pid_alive beat now (c ∷ a) entries e n h alive within =
    let kept : RegistryEntry = record e { last_heartbeat_at = beat; live = true } in
    let (stays, lives) = fresh is_pid_alive now kept within (unfold pid_dead in alive) in
    (
      set (c ∷ a) kept entries,
      rw (h, heartbeat),
      get-sweep is_pid_alive now (c ∷ a) (set (c ∷ a) kept entries) kept
            (get-set_self (c ∷ a) kept entries) stays
          ∙ ap some (unfold mark in rw lives),
    )
