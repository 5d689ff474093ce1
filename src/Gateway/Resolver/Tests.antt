-- ===== src/Gateway/Resolver/Tests.antt =====
-- Witnesses and runs of the resolver.
use olane.Common.{
  ◌≡◌, refl, ◌⊎◌, [], ◌∷◌, if◌then◌else◌, none, some, codes, text_eq, split, split_head, cons_head,
  replace, strip_prefix, to_lower_case, ok,
}
use olane.Core.Address.{Address, libp2p, address, paths, set_transports}
use olane.Gateway.Names.{is_reserved_gateway_name, is_alphanumeric}
use olane.Gateway.Resolver.{
  Entry, Snapshot, Verifier, Config, initial, begin_load, finish_load, load, is_stale, lookup, via,
  resolve,
}
use olane.Gateway.Resolver.Trust.{Vouched}
use olane.Gateway.Resolver.Reach.{reached_initial, reached_begin, resolve_lem}

abbrev verifier : Verifier
verifier = record {
  verify_snapshot = λ snapshot did.
      if text_eq snapshot.maintainer_signature did then none else some (codes "mismatch");
  verify_entry = λ e. none;
}

abbrev config : Config
config = record {
  expected_maintainer_did = codes "did:web:m";
  max_cache_age_ms = none;
  fail_closed = none;
}

abbrev acme : Entry
acme = record {
  name = codes "acme";
  transports = codes "/dns4/acme" ∷ [];
  signature = codes "s";
  verified_at = none;
}

abbrev snapshot : Snapshot
snapshot = record { entries = acme ∷ []; maintainer_signature = codes "did:web:m" }

abbrev wanted : Address
wanted = address (codes "o://acme/tools")

abbrev gateway : Address
gateway = record {
  value = codes "o://leader";
  transports = record { value = codes "/dns4/acme"; type = libp2p } ∷ [];
}

resolved : (resolve verifier config wanted (ok snapshot) 5 initial).0 ≡ ok gateway
unfolding resolve lookup load begin_load finish_load is_stale text_eq paths split cons_head
    split_head replace strip_prefix is_reserved_gateway_name is_alphanumeric to_lower_case
    set_transports
resolved = refl

resolved_later :
    (resolve verifier config wanted (ok snapshot) 5 (begin_load verifier config initial).1).0
    ≡ ok gateway
unfolding resolve lookup load begin_load finish_load is_stale text_eq paths split cons_head
    split_head replace strip_prefix is_reserved_gateway_name is_alphanumeric to_lower_case
    set_transports
resolved_later = refl

resolve_lem_example :
    (gateway ≡ wanted)
    ⊎ ((found : Entry) × (gateway ≡ via verifier config wanted (some found))
        × Vouched verifier config
            (split_head (split b'/' (paths wanted)))
            5
            (resolve verifier config wanted
              (ok snapshot)
              5
              (begin_load verifier config initial).1).1
            found)
resolve_lem_example =
    resolve_lem verifier config wanted gateway (ok snapshot) 5
      (begin_load verifier config initial).1 (reached_begin reached_initial) resolved_later
