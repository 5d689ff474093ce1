-- ===== src/Registry/MetricsStore/Tests.antt =====
-- Witnesses and small runs of the metrics store.
use olane.Common.{ℕ, ◌+◌, ◌≡◌, refl, [], none, some, Text, codes, text_eq, get, set, arith}
use olane.Registry.MetricsStore.{
  Metrics, HeartbeatEntry, Store, make_entry, push_bounded, get_all_metrics, store_metrics,
  record_heartbeat, get_latest_metrics, is_node_alive, get_stale_services, cleanup_from, cleanup,
  total_entries, count_distinct, get_summary,
}
use olane.Registry.MetricsStore.Bounds.{IsBounded, store_metrics-IsBounded}

run : Unit {0}
unfolding text_eq get set make_entry push_bounded get_all_metrics store_metrics record_heartbeat
    get_latest_metrics is_node_alive get_stale_services cleanup_from cleanup total_entries
    count_distinct get_summary
run = tt

abbrev empty : Store ℕ
empty = record { node_metrics = []; heartbeats = [] }

abbrev one : Metrics ℕ
one = record { success_count = some 1; error_count = none; active_requests = none; other = 7 }

abbrev a : Text
a = codes "o://a"

abbrev b : Text
b = codes "o://b"

abbrev used : Store ℕ
used = store_metrics 10 a one (record_heartbeat 5 b none empty)

summary : (get_summary 60005 used).stale_nodes + (get_summary 60005 used).alive_nodes ≡ 0
unfolding run
summary = refl

used-IsBounded : IsBounded used
unfolding run
used-IsBounded = omega arith

store_metrics-IsBounded_example : IsBounded (store_metrics 20 a one used)
store_metrics-IsBounded_example = store_metrics-IsBounded 20 a one used used-IsBounded

abbrev beat : HeartbeatEntry ℕ
beat = record { timestamp = 5; metrics = none }
