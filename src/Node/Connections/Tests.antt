-- ===== src/Node/Connections/Tests.antt =====
-- Witnesses and runs of the connections.
use olane.Common.{
  ◌+◌, ◌≤◌, ◌≡◌, ◌≢◌, refl, true, false, List, [], ◌∷◌, none, some, codes, text_eq, starts_with,
  strip_prefix, includes, cons_head, any, if◌then◌else◌, get, set, delete, ok, err,
}
use olane.Core.Address.{Address, Transport, libp2p, libp2p_transports}
use olane.Node.Connections.{
  P2pConnection, Connection, Config, Settings, State, initial, split_by, to_peer_id, peer_of,
  connection_closed, cache_connection, create_connection, find_open,
  get_cached_connection_from_address, finish_connect, track_stream, answer,
}
use olane.Node.Connections.Cache.{reached_initial, reached_answer, reached_finish}
use olane.Node.Connections.Dialing.{get_cached_lem}
use olane.Node.Connections.Pending.{Event, needs, settled, dials, settlements, dials_lem}
use olane.Node.Connections.Sending.{Failure, o_error, send_failed, transmit, do_send, transmit_lem}

abbrev relayed : Transport
relayed = record { value = codes "/dns4/h/p2p/R/p2p-circuit/p2p/P"; type = libp2p }

peer_behind_relay : to_peer_id relayed ≡ some (codes "P")
unfolding to_peer_id split_by includes starts_with strip_prefix cons_head
peer_behind_relay = refl

abbrev there : Address
there = record {
  value = codes "o://there";
  transports = record { value = codes "/x/p2p/P"; type = libp2p } ∷ [];
}

abbrev settings : Settings
settings = record {
  default_read_timeout_ms = some 5;
  default_drain_timeout_ms = none;
  run_on_limited_connection = none;
}

abbrev first : P2pConnection
first = record { id = codes "one"; remote_peer = codes "P"; inbound = false }

abbrev second_one : P2pConnection
second_one = record { id = codes "three"; remote_peer = codes "P"; inbound = true }

abbrev config : Config
config = record {
  target_address = there;
  next_hop_address = some there;
  caller_address = none;
  read_timeout_ms = none;
  drain_timeout_ms = none;
  is_stream = none;
  p2p_connection = some second_one;
}

peer_of-there : peer_of there ≡ some (codes "P")
unfolding peer_of libp2p_transports to_peer_id split_by includes starts_with strip_prefix cons_head
peer_of-there = refl

abbrev busy : State
busy =
    (finish_connect settings config there (ok first)
      (answer settings config there (codes "s") initial).1).1

abbrev left : Connection
left = create_connection settings config there first

left_over :
    get_cached_connection_from_address
      (λ id. true)
      there
      (connection_closed (some (codes "three")) busy)
    ≡ some left
unfolding get_cached_connection_from_address connection_closed finish_connect answer find_open
    cache_connection create_connection track_stream peer_of libp2p_transports to_peer_id split_by
    includes starts_with strip_prefix cons_head set get delete text_eq
left_over = refl

get_cached_lem_example :
    (peer_of there ≡ some left.p2p_connection.remote_peer)
    × (true ≡ true)
    × (left.p2p_connection.id ≢ codes "three")
get_cached_lem_example =
    get_cached_lem settings (λ id. true) there (codes "three") busy left
      (reached_finish config there (ok first)
        (reached_answer config there (codes "s") reached_initial))
      left_over

abbrev calls : List Event
calls = needs there ∷ needs there ∷ settled (codes "o://there") ∷ needs there ∷ []

dials_lem_example :
    dials (codes "o://there") calls initial
      + (if any (text_eq (codes "o://there")) initial.pending_dials then 1 else 0)
    ≤ settlements (codes "o://there") calls + 1
dials_lem_example = dials_lem (codes "o://there") calls initial

abbrev unsupported : Failure
unsupported = record { name = codes "UnsupportedProtocolError"; code = none }

unsupported_fails : (transmit (err unsupported) (ok tt) left).0 ≡ err (o_error send_failed)
unfolding transmit do_send text_eq
unsupported_fails = refl

transmit_lem_example : o_error send_failed ≡ o_error send_failed
transmit_lem_example =
    transmit_lem (err unsupported) (ok tt) left (o_error send_failed) unsupported_fails
