-- ===== src/Node/Connections.antt =====
-- packages/o-node/src/connection/o-node-connection.manager.ts and the streams, the sending and the
-- address of o-node-connection.ts: the connections that are kept by the id of their libp2p connection,
-- and the dials in flight by the address. libp2p is a parameter: the libp2p connections, whether one of
-- them is open, what a dial, a new stream or a send comes to. `connect` is in two steps, around the dial.
pub mod Cache
pub mod Dialing
pub mod Pending
pub mod Sending
mod Tests
use olane.Common.{
  ℕ, ◌-◌, zero, suc, Bool, true, false, not, ◌&&◌, ◌||◌, List, [], ◌∷◌, ◌++◌, Option, none, some,
  Text, codes, text_eq, starts_with, includes, cons_head, any, keep_if, length, if◌then◌else◌, ◌==◌,
  or_default, Dict, get, set, delete, values, Result, ok, err,
}
use olane.Core.Address.{Address, Transport, libp2p_transports}

-- `s.split(separator)`; the first argument counts the units of a separator that are still to be passed.
unfoldable pub split_by : ℕ → Text → Text → List Text
split_by n separator [] = [] ∷ []
split_by (suc n) separator (c ∷ s) = split_by n separator s
split_by zero separator (c ∷ s) =
    let behind = split_by (length separator - 1) separator s in
    let rest = split_by 0 separator s in
    if starts_with separator (c ∷ s) then [] ∷ behind else cons_head c rest

-- `[1]`.
abbrev pub second : List Text → Option Text
second [] = none
second (x ∷ []) = none
second (x ∷ y ∷ xs) = some y

-- packages/o-node/src/router/o-node.transport.ts.
unfoldable pub to_peer_id : Transport → Option Text
to_peer_id t = second (
    if includes (codes "/p2p-circuit") t.value
    then split_by 0 (codes "/p2p-circuit/p2p/") t.value
    else split_by 0 (codes "/p2p/") t.value)

abbrev pub first_peer : List Transport → Option Text
first_peer [] = none
first_peer (t ∷ ts) = to_peer_id t

-- The peer of the first libp2p transport.
unfoldable pub peer_of : Address → Option Text
peer_of a = first_peer (libp2p_transports a)

pub record P2pConnection : Type 0 where
  pub id : Text
  pub remote_peer : Text
  pub inbound : Bool

pub record Connection : Type 0 where
  pub p2p_connection : P2pConnection
  pub next_hop_address : Address
  pub target_address : Address
  pub caller_address : Option Address
  pub read_timeout_ms : Option ℕ
  pub drain_timeout_ms : Option ℕ
  pub is_stream : Bool
  pub run_on_limited_connection : Bool
  pub streams : Dict Address

pub record Config : Type 0 where
  pub target_address : Address
  pub next_hop_address : Option Address
  pub caller_address : Option Address
  pub read_timeout_ms : Option ℕ
  pub drain_timeout_ms : Option ℕ
  pub is_stream : Option Bool
  pub p2p_connection : Option P2pConnection

pub record Settings : Type 0 where
  pub default_read_timeout_ms : Option ℕ
  pub default_drain_timeout_ms : Option ℕ
  pub run_on_limited_connection : Option Bool

pub record State : Type 0 where
  pub cached_connections : Dict Connection
  pub pending_dials : List Text

abbrev pub initial : State
initial = record { cached_connections = []; pending_dials = [] }

pub data Problem : Type 0 where
  no_p2p_connection invalid_address no_transports : Problem
  dial_failed : Text → Problem

-- `x ?? y`, where both may be missing.
abbrev pub option_or : Option ℕ → Option ℕ → Option ℕ
option_or none y = y
option_or (some x) y = some x

-- The listener of `connection:close`.
unfoldable pub connection_closed : Option Text → State → State
connection_closed none s = s
connection_closed (some id) s = record s { cached_connections = delete id s.cached_connections }

unfoldable pub cache_connection : Connection → State → State
cache_connection c s = record s {
  cached_connections = set c.p2p_connection.id c s.cached_connections;
}

unfoldable pub create_connection : Settings → Config → Address → P2pConnection → Connection
create_connection settings config next_hop p = record {
  p2p_connection = p;
  next_hop_address = next_hop;
  target_address = config.target_address;
  caller_address = config.caller_address;
  read_timeout_ms = option_or config.read_timeout_ms settings.default_read_timeout_ms;
  drain_timeout_ms = option_or config.drain_timeout_ms settings.default_drain_timeout_ms;
  is_stream = or_default config.is_stream false;
  run_on_limited_connection = or_default settings.run_on_limited_connection false;
  streams = [];
}

unfoldable pub track_stream : Text → Address → Connection → Connection
track_stream id remote c = record c { streams = set id remote c.streams }

-- The listener of a stream's close.
unfoldable pub stream_closed : Text → Connection → Connection
stream_closed id c = record c { streams = delete id c.streams }

-- The addresses of a connection as the other end sees it.
unfoldable pub connection_caller : Connection → Option Address
connection_caller c = if c.p2p_connection.inbound then some c.target_address else c.caller_address

abbrev pub answer_from :
    Settings → Config → Address → Text → P2pConnection → Option Connection → Connection
answer_from settings config next_hop stream p none =
    track_stream stream next_hop (create_connection settings config next_hop p)
answer_from settings config next_hop stream p (some c) = track_stream stream next_hop c

-- A connection that is known gets the stream; a new one does too, and is kept.
abbrev pub answer_on :
    Settings
    → Config
    → Address
    → Text
    → State
    → Option P2pConnection
    → Result Problem Connection × State
answer_on settings config next_hop stream s none = (err no_p2p_connection, s)
answer_on settings config next_hop stream s (some p) =
    let c = answer_from settings config next_hop stream p (get p.id s.cached_connections) in
    (ok c, record s { cached_connections = set p.id c s.cached_connections })

unfoldable pub answer :
    Settings → Config → Address → Text → State → Result Problem Connection × State
answer settings config next_hop stream s =
    answer_on settings config next_hop stream s config.p2p_connection

abbrev pub is_peer : Option Text → Text → Bool
is_peer none remote = false
is_peer (some peer) remote = text_eq remote peer

-- The first that leads to the peer and is open now.
unfoldable pub find_open : (Text → Bool) → Option Text → List Connection → Option Connection
find_open is_open peer [] = none
find_open is_open peer (c ∷ cs) =
    let rest = find_open is_open peer cs in
    if is_peer peer c.p2p_connection.remote_peer && is_open c.p2p_connection.id
    then some c
    else rest

-- An address without a libp2p transport finds nothing; there the source throws once a connection is
-- kept, but `connect` asks for no such address.
unfoldable pub get_cached_connection_from_address :
    (Text → Bool) → Address → State → Option Connection
get_cached_connection_from_address is_open a s =
    find_open is_open (peer_of a) (values s.cached_connections)

-- A connection to reuse, or the address whose dial is awaited and whether it starts now.
pub data Begun : Type 0 where
  reuse : Connection → Begun
  awaits : Address → Bool → Begun

unfoldable pub begin_dial : Address → State → Begun × State
begin_dial a s =
    if any (text_eq a.value) s.pending_dials
    then (awaits a false, s)
    else (awaits a true, record s { pending_dials = s.pending_dials ++ a.value ∷ [] })

abbrev pub begin_with : Address → State → Option Connection → Begun × State
begin_with a s (some c) = (reuse c, s)
begin_with a s none = begin_dial a s

abbrev pub begin_to : (Text → Bool) → State → Option Address → Result Problem Begun × State
begin_to is_open s none = (err invalid_address, s)
begin_to is_open s (some a) =
    let r = begin_with a s (get_cached_connection_from_address is_open a s) in
    if length (libp2p_transports a) == 0 then (err no_transports, s) else (ok r.0, r.1)

unfoldable pub begin_connect : (Text → Bool) → Config → State → Result Problem Begun × State
begin_connect is_open config s = begin_to is_open s config.next_hop_address

-- The dial settles, and is no longer pending.
unfoldable pub settle_dial : Text → State → State
settle_dial key s = record s { pending_dials = keep_if (λ k. not (text_eq key k)) s.pending_dials }

-- What a call that awaited a dial does with its result.
unfoldable pub finish_connect :
    Settings
    → Config
    → Address
    → Result Text P2pConnection
    → State
    → Result Problem Connection × State
finish_connect settings config a (err e) s = (err (dial_failed e), s)
finish_connect settings config a (ok p) s =
    let c = create_connection settings config a p in (ok c, cache_connection c s)
