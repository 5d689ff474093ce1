-- ===== src/Gateway/Resolver.antt =====
-- packages/o-gateway-registry/src/registry/gateway-registry-resolver.ts: the resolver of gateway names
-- over a pinned snapshot of the registry. The fetcher's answer, the verifier and the clock are
-- parameters. `load` is in two steps, so that calls can meet while a request is in flight; `lookup` and
-- `resolve` await the request that they issue, and read the clock once; what the verifier says of a
-- snapshot or an entry does not change.
pub mod Trust
pub mod Reach
mod Tests
use olane.Common.{
  ℕ, ◌-◌, ◌*◌, Bool, true, false, not, ◌||◌, List, [], ◌∷◌, Option, none, some, Text, text_eq,
  if◌then◌else◌, ltb, ◌==◌, or_default, map, split, split_head, Result, ok, err,
}
use olane.Core.Address.{Address, Transport, TransportType, libp2p, leader, paths, set_transports}
use olane.Gateway.Names.{is_reserved_gateway_name}

pub record Entry : Type 0 where
  pub name : Text
  pub transports : List Text
  pub signature : Text
  pub verified_at : Option ℕ

pub record Snapshot : Type 0 where
  pub entries : List Entry
  pub maintainer_signature : Text

-- What the verifier throws, or that it accepts.
pub record Verifier : Type 0 where
  pub verify_snapshot : Snapshot → Text → Option Text
  pub verify_entry : Entry → Option Text

pub record Config : Type 0 where
  pub expected_maintainer_did : Text
  pub max_cache_age_ms : Option ℕ
  pub fail_closed : Option Bool

pub record State : Type 0 where
  pub snapshot : Option Snapshot
  pub snapshot_fetched_at : Option ℕ
  pub loading : Bool

abbrev pub initial : State
initial = record { snapshot = none; snapshot_fetched_at = none; loading = false }

module _ (verifier : Verifier) (config : Config) where
  -- Whether a request is issued, or the one in flight is awaited.
  unfoldable pub begin_load : State → Bool × State
  begin_load s = (not s.loading, record s { loading = true })

  abbrev pub keep_verified : Snapshot → ℕ → Option Text → State → Result Text Unit × State
  keep_verified snapshot now none s = (
    ok tt,
    record s { snapshot = some snapshot; snapshot_fetched_at = some now; loading = false },
  )
  keep_verified snapshot now (some e) s = (err e, record s { loading = false })

  -- What the fetcher answered arrives.
  unfoldable pub finish_load : Result Text Snapshot → ℕ → State → Result Text Unit × State
  finish_load (err e) now s = (err e, record s { loading = false })
  finish_load (ok snapshot) now s =
      keep_verified snapshot now (verifier.verify_snapshot snapshot config.expected_maintainer_did)
        s

  unfoldable pub load : Result Text Snapshot → ℕ → State → Result Text Unit × State
  load fetched now s = finish_load fetched now (begin_load s).1

  -- No time of a fetch, or zero, counts as stale.
  abbrev pub is_too_old : ℕ → Option ℕ → Bool
  is_too_old now none = true
  is_too_old now (some t) =
      if t == 0 then true else ltb (or_default config.max_cache_age_ms (60 * 60 * 1000)) (now - t)

  unfoldable pub is_stale : ℕ → State → Bool
  is_stale now s = is_too_old now s.snapshot_fetched_at

  abbrev pub find_name : Text → List Entry → Option Entry
  find_name name [] = none
  find_name name (e ∷ es) = if text_eq e.name name then some e else find_name name es

  abbrev pub checked : ℕ → Entry → Option Text → Option Entry
  checked now e none = some (record e { verified_at = some now })
  checked now e (some problem) = none

  abbrev pub checked_entry : ℕ → Option Entry → Option Entry
  checked_entry now none = none
  checked_entry now (some e) = checked now e (verifier.verify_entry e)

  abbrev pub verified_in : Text → ℕ → Option Snapshot → Option Entry
  verified_in name now none = none
  verified_in name now (some snapshot) = checked_entry now (find_name name snapshot.entries)

  abbrev pub fails_closed : Bool
  fails_closed = or_default config.fail_closed true

  abbrev pub is_missing : Option Snapshot → Bool
  is_missing none = true
  is_missing (some snapshot) = false

  abbrev pub needs_load : ℕ → State → Bool
  needs_load now s = is_missing s.snapshot || is_stale now s

  abbrev pub after_load : Text → ℕ → Result Text Unit × State → Result Text (Option Entry) × State
  after_load name now (ok u, s) = (ok (verified_in name now s.snapshot), s)
  after_load name now (err e, s) = (if fails_closed then err e else ok none, s)

  unfoldable pub lookup :
      Text → Result Text Snapshot → ℕ → State → Result Text (Option Entry) × State
  lookup name fetched now s =
      if is_reserved_gateway_name name
      then (ok none, s)
      else if needs_load now s
      then after_load name now (load fetched now s)
      else (ok (verified_in name now s.snapshot), s)

  abbrev pub via : Address → Option Entry → Address
  via a none = a
  via a (some e) =
      set_transports (map (λ t. record { value = t; type = libp2p }) e.transports) leader

  abbrev pub next_hop : Address → Result Text (Option Entry) × State → Result Text Address × State
  next_hop a (ok found, s) = (ok (via a found), s)
  next_hop a (err e, s) = (err e, s)

  -- The next hop; the target and the request are handed on as they are.
  unfoldable pub resolve : Address → Result Text Snapshot → ℕ → State → Result Text Address × State
  resolve a fetched now s =
      let first_segment = split_head (split b'/' (paths a)) in
      if text_eq first_segment [] || is_reserved_gateway_name first_segment
      then (ok a, s)
      else next_hop a (lookup first_segment fetched now s)
