-- ===== src/Agent.antt =====
-- packages/o-agent/src/router/agent.resolver.ts: the methods of an agent that the addresses below its
-- own stand for.
pub mod SubPaths
mod Tests
use olane.Common.{
  ℕ, Bool, true, false, not, List, [], ◌∷◌, ◌++◌, Option, none, some, Text, codes, text_eq,
  strip_prefix, includes, any, keep_if, map, split, trim, if◌then◌else◌,
}
use olane.Core.Address.{Address, paths}

pub data Params : Type 0 where
  no_params : Params
  id key : Text → Params
  path : List Text → Params

-- A method by its name; a name that every object inherits stands for what it inherits, which is no name.
pub data Method : Type 0 where
  method : Text → Method
  inherited : Text → Method

abbrev pub table : List (Text × Text)
table =
    (codes "inbox", codes "list_inbox")
    ∷ (codes "send", codes "send")
    ∷ (codes "receive", codes "receive")
    ∷ (codes "drain", codes "drain_inbox")
    ∷ (codes "card", codes "get_card")
    ∷ (codes "status", codes "get_status")
    ∷ []

-- The names of `Object.prototype`.
abbrev pub inherited_names : List Text
inherited_names =
    codes "constructor"
    ∷ codes "__defineGetter__"
    ∷ codes "__defineSetter__"
    ∷ codes "hasOwnProperty"
    ∷ codes "__lookupGetter__"
    ∷ codes "__lookupSetter__"
    ∷ codes "isPrototypeOf"
    ∷ codes "propertyIsEnumerable"
    ∷ codes "toString"
    ∷ codes "valueOf"
    ∷ codes "__proto__"
    ∷ codes "toLocaleString"
    ∷ []

unfoldable pub in_table : Text → List (Text × Text) → Option Text
in_table head [] = none
in_table head ((k, v) ∷ rest) =
    let later = in_table head rest in if text_eq k head then some v else later

unfoldable pub tail_to_params : List Text → Params
tail_to_params [] = no_params
tail_to_params (s ∷ []) = key s
tail_to_params (s ∷ t ∷ rest) = path (s ∷ t ∷ rest)

abbrev pub is_given : Text → Bool
is_given [] = false
is_given (c ∷ s) = true

unfoldable pub segments_of : Text → List Text
segments_of suffix = keep_if is_given (map trim (split b'/' suffix))

-- The entry for the first segment, if the table has one.
abbrev pub by_entry : Text → List Text → Option Text → Method × Params
by_entry head rest none = (
  if any (text_eq head) inherited_names then inherited head else method head,
  tail_to_params rest,
)
by_entry head [] (some m) = (method m, tail_to_params [])
by_entry head (s ∷ rest) (some m) =
    if text_eq head (codes "inbox")
    then (method (codes "read_message"), id s)
    else (method m, tail_to_params (s ∷ rest))

unfoldable pub parse_segments : List Text → Method × Params
parse_segments [] = (method (codes "route_to_self"), no_params)
parse_segments (head ∷ rest) = by_entry head rest (in_table head table)

abbrev pub suffix_of : Text → Option Text → Text
suffix_of incoming none = incoming
suffix_of incoming (some rest) = rest

unfoldable pub parse_sub_path : Address → Address → Method × Params
parse_sub_path incoming own =
    parse_segments (segments_of (suffix_of incoming.value (strip_prefix own.value incoming.value)))

-- The next hop and the target, and the request that the address stands for.
pub record Dispatch : Type 0 where
  pub next_hop_address : Address
  pub target_address : Address
  pub request_override : Option (Method × Params)

unfoldable pub resolve : Address → Address → Address → Dispatch
resolve own a target =
    if includes (paths own) (paths target)
    then record {
      next_hop_address = own;
      target_address = own;
      request_override = some (parse_sub_path a own);
    }
    else record { next_hop_address = a; target_address = target; request_override = none }
