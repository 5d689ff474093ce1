-- ===== src/Registry/Memory.antt =====
-- packages/o-leader/src/registry/registry-memory.tool.ts, with the maps of registry.tool.ts: the
-- leader's registry of nodes. What the ping of a found parent answers is a parameter: the error that
-- it threw, or `none`. `Date.now()` is `now`.
pub mod Search
pub mod Stale
mod Tests
use olane.Common.{
  ℕ, Bool, true, false, not, ◌&&◌, ◌||◌, List, [], ◌∷◌, ◌++◌, Option, none, some, Text, codes,
  text_eq, Dict, get, set, delete, values, any, every, find, keep_if, if◌then◌else◌, or_default,
  leb, ◌==◌, Result, ok, err, ◌>>=◌,
}

-- The `registered_at` of a request may be missing, and so may its protocols.
pub record RegistrationParams : Type 0 where
  pub peer_id : Text
  pub address : Text
  pub static_address : Text
  pub protocols : Option (List Text)
  pub transports : Option (List Text)
  pub registered_at : Option ℕ

pub record RegistryState : Type 0 where
  pub registry : Dict RegistrationParams
  pub protocol_mapping : Dict (List Text)

-- `params.registeredAt || Date.now()`: a zero counts as missing.
abbrev pub registered_or : ℕ → Option ℕ → ℕ
registered_or now none = now
registered_or now (some t) = if t == 0 then now else t

unfoldable pub map_protocols : Text → List Text → Dict (List Text) → Dict (List Text)
map_protocols peer [] m = m
map_protocols peer (p ∷ ps) m =
    map_protocols peer ps (set p (or_default (get p m) [] ++ peer ∷ []) m)

unfoldable pub commit : ℕ → RegistrationParams → RegistryState → RegistryState
commit now params s = record {
  registry =
      set params.peer_id
        (record params { registered_at = some (registered_or now params.registered_at) })
        s.registry;
  protocol_mapping =
      map_protocols params.peer_id (or_default params.protocols []) s.protocol_mapping;
}

unfoldable pub find_all : RegistryState → List RegistrationParams
find_all s = values s.registry

unfoldable pub remove : Text → RegistryState → RegistryState
remove peer s = record s { registry = delete peer s.registry }

pub record SearchParams : Type 0 where
  pub protocols : Option (List Text)
  pub address : Option Text
  pub static_address : Option Text

abbrev pub reading_undefined : Text
reading_undefined = codes "Cannot read properties of undefined (reading 'includes')"

-- `params.protocols.every((protocol) => node.protocols.includes(protocol))`: a node without protocols
-- makes it throw.
unfoldable pub has_protocols : List Text → RegistrationParams → Result Text Bool
has_protocols [] node = ok true
has_protocols (p ∷ ps) node = elim node.protocols [
  | none ↦ err reading_undefined
  | some own ↦ ok (every (λ q. any (text_eq q) own) (p ∷ ps))
]

unfoldable pub with_protocols :
    List Text → List RegistrationParams → Result Text (List RegistrationParams)
with_protocols ps [] = ok []
with_protocols ps (node ∷ nodes) = has_protocols ps node >>= λ b.
    with_protocols ps nodes >>= λ rest. ok (if b then node ∷ rest else rest)

-- The test of `if (params.address)`: an empty text is passed over.
abbrev pub given : Option Text → (Text → Bool) → Bool
given none test = false
given (some []) test = false
given (some (c ∷ t)) test = test (c ∷ t)

-- `Number(registeredAt) || 0`.
abbrev pub time_of : RegistrationParams → ℕ
time_of r = or_default r.registered_at 0

-- `sort` by the time of registration, the latest first; it is stable.
unfoldable pub insert_by_time :
    RegistrationParams → List RegistrationParams → List RegistrationParams
insert_by_time x [] = x ∷ []
insert_by_time x (y ∷ ys) =
    let rest = insert_by_time x ys in if leb (time_of y) (time_of x) then x ∷ y ∷ ys else y ∷ rest

unfoldable pub sort_by_time : List RegistrationParams → List RegistrationParams
sort_by_time [] = []
sort_by_time (x ∷ xs) = insert_by_time x (sort_by_time xs)

unfoldable pub search : SearchParams → RegistryState → Result Text (List RegistrationParams)
search params s =
    let nodes = find_all s in
    let by_protocols : Result Text (List RegistrationParams) = elim params.protocols [
      | none ↦ ok []
      | some ps ↦ with_protocols ps nodes
    ] in
    let by_address = keep_if (λ r. given params.address (text_eq r.address)) nodes in
    let by_static = keep_if (λ r. given params.static_address (text_eq r.static_address)) nodes in
    by_protocols >>= λ found. ok (sort_by_time (found ++ (by_address ++ by_static)))

-- The address and the transports of a parent, or neither.
unfoldable pub find_available_parent :
    Option Text → Text → RegistryState → Result Text (Option (Text × List Text))
find_available_parent ping parent_address s =
    elim (find (λ r. text_eq r.static_address parent_address || text_eq r.address parent_address)
      (find_all s)) [
        | none ↦ ok none
        | some node ↦ elim ping [
          | some e ↦ err e
          | none ↦ ok (some (node.address, or_default node.transports []))
        ]
      ]
