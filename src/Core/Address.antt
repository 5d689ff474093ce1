-- ===== src/Core/Address.antt =====
-- packages/o-core/src/router/o-address.ts: the address of a node, `o://a/b/c`, with its transports
-- (packages/o-core/src/transports). `setTransports` mutates the address; here it returns the new
-- one.
pub mod Hop
pub mod Route
mod Tests
use olane.Common.{
  ℕ, Bool, not, ◌&&◌, List, [], ◌∷◌, ◌++◌, Option, none, some, Text, codes, text_eq, starts_with,
  includes, replace, split, split_head, split_last, any, every, keep_if, if◌then◌else◌,
}

pub data TransportType : Type 0 where
  libp2p custom : TransportType

pub record Transport : Type 0 where
  pub value : Text
  pub type : TransportType

abbrev pub type_eq : TransportType → TransportType → Bool
type_eq libp2p libp2p = Bool.true
type_eq custom custom = Bool.true
type_eq _ _ = Bool.false

pub record Address : Type 0 where
  pub value : Text
  pub transports : List Transport

abbrev pub address : Text → Address
address v = record { value = v; transports = [] }

-- `RestrictedAddresses`.
abbrev pub leader_value : Text
leader_value = codes "o://leader"

abbrev pub registry_value : Text
registry_value = codes "o://registry"

abbrev pub lane_value : Text
lane_value = codes "o://lane"

abbrev pub leader : Address
leader = address leader_value

abbrev pub registry : Address
registry = address registry_value

abbrev pub scheme : Text
scheme = codes "o://"

abbrev pub proto : Text
proto = codes "/o/"

unfoldable pub libp2p_transports : Address → List Transport
libp2p_transports a = keep_if (λ t. type_eq t.type libp2p) a.transports

unfoldable pub custom_transports : Address → List Transport
custom_transports a = keep_if (λ t. type_eq t.type custom) a.transports

unfoldable pub transports_equal : Address → Address → Bool
transports_equal a other =
    every (λ t. any (λ t2. text_eq t.value t2.value) other.transports) a.transports

unfoldable pub equals : Address → Address → Bool
equals a other = text_eq a.value other.value && transports_equal a other

unfoldable pub set_transports : List Transport → Address → Address
set_transports ts a = record a { transports = ts }

unfoldable pub validate : Address → Bool
validate a = starts_with scheme a.value

unfoldable pub paths : Address → Text
paths a = replace scheme [] a.value

unfoldable pub protocol : Address → Text
protocol a = replace scheme proto a.value

unfoldable pub is_nested : Address → Bool
is_nested a = includes (codes "/") (paths a)

-- `'o://' + this.paths.split('/')[0]`.
unfoldable pub root : Address → Text
root a = scheme ++ split_head (split b'/' (paths a))

-- `split` never gives an empty list, so the `length === 0` branches are not taken.
unfoldable pub to_static_address : Address → Address
to_static_address a = record {
  value = scheme ++ split_last (split b'/' (paths a));
  transports = a.transports;
}

unfoldable pub to_root_address : Address → Address
to_root_address a = address (scheme ++ split_head (split b'/' (paths a)))

unfoldable pub supports_transport : Address → Transport → Bool
supports_transport a transport = any (λ t. type_eq t.type transport.type) a.transports

unfoldable pub is_static : Address → Bool
is_static a = not (starts_with leader_value a.value)

-- `remainingPath.replace('/o/', '').split('/').reverse().pop()`.
unfoldable pub next_segment : Text → Text
next_segment remaining_path = split_head (split b'/' (replace proto [] remaining_path))

-- `oAddress.next`: the hop from `a` towards `target`.
unfoldable pub next : Address → Address → Address
next a target =
    let remaining_path = replace (protocol a ++ codes "/") [] (protocol target) in
    if text_eq remaining_path []
    then a
    else if text_eq remaining_path (protocol target)
    then (if text_eq a.value target.value then a else if not (equals a leader) then leader else a)
    else if not (equals a leader) && is_static target
    then leader
    else address (a.value ++ (codes "/" ++ next_segment remaining_path))
