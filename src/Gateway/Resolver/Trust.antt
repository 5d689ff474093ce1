-- ===== src/Gateway/Resolver/Trust.antt =====
-- What stands behind an address that the resolver hands out.
use olane.Common.{
  ℕ, ◌≤◌, ◌-◌, ◌*◌, ◌≡◌, refl, ap, ◌∙◌, Bool, true, false, Option, none, some, Text, if◌then◌else◌,
  or_default, Result, ok, err, arith,
}
use olane.Gateway.Names.{is_reserved_gateway_name}
use olane.Gateway.Resolver.{
  Entry, Snapshot, Verifier, Config, State, initial, begin_load, keep_verified, finish_load, load,
  is_stale, find_name, is_too_old, checked, checked_entry, verified_in, fails_closed, needs_load,
  after_load, lookup,
}

module _ (verifier : Verifier) (config : Config) where
  -- The snapshot that is kept was verified against the expected maintainer.
  abbrev pub Trusted : State → Type 0
  Trusted s =
      (snapshot : Snapshot)
      → s.snapshot ≡ some snapshot
      → verifier.verify_snapshot snapshot config.expected_maintainer_did ≡ none

  -- The snapshot that is kept was fetched at most the allowed time ago.
  abbrev pub Recent : ℕ → State → Type 0
  Recent now s =
      (t : ℕ) × (s.snapshot_fetched_at ≡ some t)
      × (now - t ≤ or_default config.max_cache_age_ms (60 * 60 * 1000))

  -- An entry of that name, in such a snapshot, which the operator's signature vouches for.
  abbrev pub Vouched : Text → ℕ → State → Entry → Type 0
  Vouched name now s found =
      (snapshot : Snapshot) × (e : Entry) × (s.snapshot ≡ some snapshot)
      × (verifier.verify_snapshot snapshot config.expected_maintainer_did ≡ none)
      × (find_name verifier config name snapshot.entries ≡ some e)
      × (verifier.verify_entry e ≡ none)
      × (found ≡ record e { verified_at = some now })
      × Recent now s
      × (is_reserved_gateway_name name ≡ false)

  pub initial-Trusted : Trusted initial
  initial-Trusted snapshot e = absurd (cc)

  keep_verified-Trusted :
      (snapshot : Snapshot) (now : ℕ) (answer : Option Text) (s : State)
      → verifier.verify_snapshot snapshot config.expected_maintainer_did ≡ answer
      → Trusted s
      → Trusted (keep_verified verifier config snapshot now answer s).1
  keep_verified-Trusted snapshot now none s e h x q =
      let same : x ≡ snapshot = cc in
      ap (λ y. verifier.verify_snapshot y config.expected_maintainer_did) same ∙ e
  keep_verified-Trusted snapshot now (some problem) s e h x q = h x q

  pub finish_load-Trusted :
      (fetched : Result Text Snapshot) (now : ℕ) (s : State)
      → Trusted s
      → Trusted (finish_load verifier config fetched now s).1
  unfolding finish_load
  finish_load-Trusted (err problem) now s h = h
  finish_load-Trusted (ok snapshot) now s h =
      keep_verified-Trusted snapshot now
        (verifier.verify_snapshot snapshot config.expected_maintainer_did) s refl h

  keep_verified-now :
      (snapshot : Snapshot) (now : ℕ) (answer : Option Text) (s : State)
      → (keep_verified verifier config snapshot now answer s).0 ≡ ok tt
      → Recent now (keep_verified verifier config snapshot now answer s).1
  keep_verified-now snapshot now none s e = (now, refl, omega arith)
  keep_verified-now snapshot now (some problem) s e = absurd (cc)

  finish_load-Recent :
      (fetched : Result Text Snapshot) (now : ℕ) (s : State)
      → (finish_load verifier config fetched now s).0 ≡ ok tt
      → Recent now (finish_load verifier config fetched now s).1
  unfolding finish_load
  finish_load-Recent (err problem) now s e = absurd (cc)
  finish_load-Recent (ok snapshot) now s e =
      keep_verified-now snapshot now
        (verifier.verify_snapshot snapshot config.expected_maintainer_did) s e

  checked_lem :
      (now : ℕ) (e found : Entry) (answer : Option Text)
      → checked verifier config now e answer ≡ some found
      → (answer ≡ none) × (found ≡ record e { verified_at = some now })
  checked_lem now e found none q = (refl, cc)
  checked_lem now e found (some problem) q = absurd (cc)

  checked_entry_lem :
      (o : Option Entry) (now : ℕ) (found : Entry)
      → checked_entry verifier config now o ≡ some found
      → (e : Entry) × (o ≡ some e)
        × (verifier.verify_entry e ≡ none)
        × (found ≡ record e { verified_at = some now })
  checked_entry_lem none now found q = absurd (cc)
  checked_entry_lem (some e) now found q =
      let (good, same) = checked_lem now e found (verifier.verify_entry e) q in
      (e, refl, good, same)

  found_in :
      (name : Text) (now : ℕ) (s : State) (found : Entry) (o : Option Snapshot)
      → s.snapshot ≡ o
      → verified_in verifier config name now o ≡ some found
      → Trusted s
      → Recent now s
      → is_reserved_gateway_name name ≡ false
      → Vouched name now s found
  found_in name now s found none p q h r f = absurd (cc)
  found_in name now s found (some snapshot) p q h r f =
      let (e, w, good, same) =
        checked_entry_lem (find_name verifier config name snapshot.entries) now found q in
      (snapshot, e, p, h snapshot p, w, good, same, r, f)

  too_old_lem :
      (now : ℕ) (o : Option ℕ)
      → is_too_old verifier config now o ≡ false
      → (t : ℕ) × (o ≡ some t) × (now - t ≤ or_default config.max_cache_age_ms (60 * 60 * 1000))
  too_old_lem now none e = absurd (cc)
  too_old_lem now (some t) e = (t, refl, ground arith)

  not_found_twice :
      (closed : Bool) (problem : Text) (found : Entry)
      → (if closed then err problem else ok none) ≡ ok (some found)
      → ⊥
  not_found_twice true problem found e = cc
  not_found_twice false problem found e = cc

  ok_value :
      (o : Option Entry) (found : Entry)
      → Path (Result Text (Option Entry)) (ok o) (ok (some found))
      → o ≡ some found
  ok_value o found e = cc

  loaded_Vouched :
      (name : Text) (now : ℕ) (r : Result Text Unit × State) (found : Entry)
      → (r.0 ≡ ok tt → Recent now r.1)
      → Trusted r.1
      → is_reserved_gateway_name name ≡ false
      → (after_load verifier config name now r).0 ≡ ok (some found)
      → Vouched name now (after_load verifier config name now r).1 found
  loaded_Vouched name now (ok u, s) found r h f e =
      found_in name now s found s.snapshot refl
        (ok_value (verified_in verifier config name now s.snapshot) found e) h (r refl) f
  loaded_Vouched name now (err problem, s) found r h f e =
      absurd (not_found_twice (fails_closed verifier config) problem found e)

  kept_Recent : (now : ℕ) (s : State) → needs_load verifier config now s ≡ false → Recent now s
  unfolding is_stale
  kept_Recent now s e = too_old_lem now s.snapshot_fetched_at (ground arith)

  pub load-Trusted :
      (fetched : Result Text Snapshot) (now : ℕ) (s : State)
      → Trusted s
      → Trusted (load verifier config fetched now s).1
  unfolding load begin_load
  load-Trusted fetched now s h = finish_load-Trusted fetched now (record s { loading = true }) h

  load-Recent :
      (fetched : Result Text Snapshot) (now : ℕ) (s : State)
      → (load verifier config fetched now s).0 ≡ ok tt
      → Recent now (load verifier config fetched now s).1
  unfolding load begin_load
  load-Recent fetched now s e = finish_load-Recent fetched now (record s { loading = true }) e

  lookup_cases :
      (name : Text) (fetched : Result Text Snapshot) (now : ℕ) (s : State) (found : Entry)
      (reserved missing : Bool)
      → Trusted s
      → is_reserved_gateway_name name ≡ reserved
      → needs_load verifier config now s ≡ missing
      → let r =
          (if reserved
            then (ok none, s)
            else if missing
            then after_load verifier config name now (load verifier config fetched now s)
            else (ok (verified_in verifier config name now s.snapshot), s)) in
        r.0 ≡ ok (some found) → Vouched name now r.1 found
  lookup_cases name fetched now s found true missing h p q e = absurd (cc)
  lookup_cases name fetched now s found false true h p q e =
      loaded_Vouched name now (load verifier config fetched now s) found (load-Recent fetched now s)
        (load-Trusted fetched now s h) p e
  lookup_cases name fetched now s found false false h p q e =
      found_in name now s found s.snapshot refl
        (ok_value (verified_in verifier config name now s.snapshot) found e) h (kept_Recent now s q)
        p

  pub lookup_lem :
      (name : Text) (fetched : Result Text Snapshot) (now : ℕ) (s : State) (found : Entry)
      → Trusted s
      → (lookup verifier config name fetched now s).0 ≡ ok (some found)
      → Vouched name now (lookup verifier config name fetched now s).1 found
  unfolding lookup
  lookup_lem name fetched now s found h e =
      lookup_cases name fetched now s found (is_reserved_gateway_name name)
        (needs_load verifier config now s) h refl refl e
