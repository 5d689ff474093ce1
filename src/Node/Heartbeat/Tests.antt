-- ===== src/Node/Heartbeat/Tests.antt =====
-- Witnesses of the connection heartbeat.
use olane.Common.{◌≡◌, refl, true, false, none, some, Text, codes, [], ◌∷◌, get}
use olane.Core.Address.{Address, Transport, libp2p, libp2p_transports}
use olane.Node.Heartbeat.{
  HeartbeatConfig, Connections, Node, State, child, healthy, check_target, check_connection_status,
}
use olane.Node.Heartbeat.Failures.{fail_times}
use olane.Node.Heartbeat.Check.{any_answer_is_open}

abbrev config : HeartbeatConfig
config = record {
  enabled = true;
  interval_ms = 15000;
  failure_threshold = 3;
  check_children = true;
  check_parent = true;
}

abbrev key : Text
key = codes "o://leader/p"

abbrev idle : State
idle = record { health_map = []; is_running = false; removed_children = []; events = [] }

abbrev wire : Transport
wire = record { value = codes "/memory/1"; type = libp2p }

abbrev peer : Address
peer = record { value = key; transports = wire ∷ [] }

abbrev node : Node
node = record { address = codes "o://leader/n"; leaders = []; parent = none; children = peer ∷ [] }

abbrev closed : Connections
closed t = some (false ∷ [])

-- Two failures are on record.
abbrev failing : State
failing = fail_times 2 config key child idle

any_answer_is_open_example :
    let u = check_target config 5 (check_connection_status closed node peer) peer child idle in
    get key u.health_map
    ≡ some (record { last_successful_ping = 5; consecutive_failures = 0; status = healthy })
unfolding libp2p_transports
any_answer_is_open_example =
    any_answer_is_open closed config node 5 peer child idle wire [] (false ∷ []) refl refl
