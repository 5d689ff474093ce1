-- ===== src/Registry/MetricsStore/Health.antt =====
-- Which nodes count as alive and which as stale.
use olane.Common.{ℕ, ◌+◌, ◌≡◌, ◌⊎◌, true, false, some, Text, get, arith}
use olane.Registry.MetricsStore.{
  HeartbeatEntry, Store, heartbeat_timeout_ms, is_node_alive, is_stale,
}

module _ {M : Type 0} where
  -- A node whose latest heartbeat is `h` is alive or stale and not both, but for a heartbeat that is
  -- exactly as old as the timeout, when it is neither.
  pub alive_or_stale :
      (now : ℕ) (address : Text) (s : Store M) (h : HeartbeatEntry M)
      → get address s.heartbeats ≡ some h
      → ((is_node_alive now address s ≡ true) × (is_stale now h ≡ false))
        ⊎ ((is_node_alive now address s ≡ false) × (is_stale now h ≡ true))
        ⊎ ((is_node_alive now address s ≡ false)
            × (is_stale now h ≡ false)
            × (now ≡ h.timestamp + heartbeat_timeout_ms))
  unfolding is_node_alive
  alive_or_stale now address s h e = rw (e, is_node_alive) (ground arith)
