-- ===== src/Registry/MetricsStore.antt =====
-- packages/o-monitor/src/utils/metrics-store.ts: the time series of each node and the last
-- heartbeats. `now` stands for `Date.now()`. Of a metric entry the counts and the time are kept; what
-- else it holds is the opaque `M`.
pub mod Bounds
pub mod Health
mod Tests
use olane.Common.{
  ℕ, suc, ◌+◌, ◌-◌, ◌<◌, Bool, true, false, not, ◌&&◌, List, [], ◌∷◌, ◌++◌, Option, none, some,
  Text, Dict, text_eq, get, set, delete, keys, values, keep_if, any, map, length, last?,
  if◌then◌else◌, ltb, leb, or_default, is_some,
}

abbrev pub max_entries_per_node : ℕ
max_entries_per_node = 1000

abbrev pub heartbeat_timeout_ms : ℕ
heartbeat_timeout_ms = 60000

module _ (M : Type 0) where
  -- What a caller hands over: the counts may be left out.
  pub record Metrics : Type 0 where
    pub success_count : Option ℕ
    pub error_count : Option ℕ
    pub active_requests : Option ℕ
    pub other : M

  pub record MetricEntry : Type 0 where
    pub timestamp : ℕ
    pub success_count : ℕ
    pub error_count : ℕ
    pub active_requests : ℕ
    pub other : M

  pub record HeartbeatEntry : Type 0 where
    pub timestamp : ℕ
    pub metrics : Option M

  pub record Store : Type 0 where
    pub node_metrics : Dict (List MetricEntry)
    pub heartbeats : Dict HeartbeatEntry

pub record Summary : Type 0 where
  pub total_nodes : ℕ
  pub alive_nodes : ℕ
  pub stale_nodes : ℕ
  pub total_metric_entries : ℕ

-- The size of the set of all the texts.
unfoldable pub count_distinct : List Text → ℕ
count_distinct [] = 0
count_distinct (t ∷ ts) =
    let rest = count_distinct ts in if any (text_eq t) ts then rest else suc rest

module _ {M : Type 0} where
  unfoldable pub make_entry : ℕ → Metrics M → MetricEntry M
  make_entry now m = record {
    timestamp = now;
    success_count = or_default m.success_count 0;
    error_count = or_default m.error_count 0;
    active_requests = or_default m.active_requests 0;
    other = m.other;
  }

  unfoldable pub get_all_metrics : Text → Store M → List (MetricEntry M)
  get_all_metrics address s = or_default (get address s.node_metrics) []

  abbrev pub shift : List (MetricEntry M) → List (MetricEntry M)
  shift [] = []
  shift (e ∷ es) = es

  -- `push`, then `shift` if there are too many.
  unfoldable pub push_bounded : MetricEntry M → List (MetricEntry M) → List (MetricEntry M)
  push_bounded e es =
      let longer = es ++ e ∷ [] in
      if ltb max_entries_per_node (length longer) then shift longer else longer

  unfoldable pub store_metrics : ℕ → Text → Metrics M → Store M → Store M
  store_metrics now address m s = record s {
    node_metrics =
        set address (push_bounded (make_entry now m) (get_all_metrics address s)) s.node_metrics;
  }

  unfoldable pub record_heartbeat : ℕ → Text → Option M → Store M → Store M
  record_heartbeat now address m s = record s {
    heartbeats = set address (record { timestamp = now; metrics = m }) s.heartbeats;
  }

  unfoldable pub get_latest_metrics : Text → Store M → Option (MetricEntry M)
  get_latest_metrics address s = last? (get_all_metrics address s)

  unfoldable pub get_metrics_in_range : Text → ℕ → ℕ → Store M → List (MetricEntry M)
  get_metrics_in_range address from to s =
      keep_if (λ e. leb from e.timestamp && leb e.timestamp to) (get_all_metrics address s)

  unfoldable pub is_node_alive : ℕ → Text → Store M → Bool
  is_node_alive now address s = elim (get address s.heartbeats) [
    | none ↦ false
    | some h ↦ ltb (now - h.timestamp) heartbeat_timeout_ms
  ]

  abbrev pub is_stale : ℕ → HeartbeatEntry M → Bool
  is_stale now h = ltb heartbeat_timeout_ms (now - h.timestamp)

  unfoldable pub get_stale_services : ℕ → Store M → List Text
  get_stale_services now s = keys (keep_if (λ e. is_stale now e.1) s.heartbeats)

  -- `timestamp > now - olderThanMs`, written so that no difference is taken.
  abbrev pub is_recent : ℕ → ℕ → MetricEntry M → Bool
  is_recent now older_than_ms e = ltb now (e.timestamp + older_than_ms)

  unfoldable pub cleanup_from : ℕ → ℕ → Dict (List (MetricEntry M)) → Dict (List (MetricEntry M))
  cleanup_from now older [] = []
  cleanup_from now older ((address, es) ∷ m) =
      let rest = cleanup_from now older m in
      elim (keep_if (is_recent now older) es) [ [] ↦ rest | e ∷ kept ↦ (address, e ∷ kept) ∷ rest ]

  unfoldable pub cleanup : ℕ → ℕ → Store M → Store M
  cleanup now older s = record s { node_metrics = cleanup_from now older s.node_metrics }

  unfoldable pub total_entries : Dict (List (MetricEntry M)) → ℕ
  total_entries [] = 0
  total_entries ((address, es) ∷ m) = length es + total_entries m

  unfoldable pub get_summary : ℕ → Store M → Summary
  get_summary now s = record {
    total_nodes = count_distinct (keys s.node_metrics ++ keys s.heartbeats);
    alive_nodes = length (keep_if (λ a. is_node_alive now a s) (keys s.heartbeats));
    stale_nodes = length (get_stale_services now s);
    total_metric_entries = total_entries s.node_metrics;
  }
