-- ===== src/Gateway/Resolver/Reach.antt =====
-- What holds of a resolver in whatever order its operations came.
use olane.Common.{
  ℕ, ◌≡◌, refl, sym, ◌⊎◌, inl, inr, Bool, true, false, ◌||◌, [], Option, none, some, Text, text_eq,
  if◌then◌else◌, split, split_head, Result, ok, err,
}
use mathlib.Core.Path.{subst}
use olane.Core.Address.{Address, paths}
use olane.Gateway.Names.{is_reserved_gateway_name}
use olane.Gateway.Resolver.{
  Entry, Snapshot, Verifier, Config, State, initial, begin_load, finish_load, load, needs_load,
  after_load, lookup, via, next_hop, resolve,
}
use olane.Gateway.Resolver.Trust.{
  Trusted, Vouched, initial-Trusted, finish_load-Trusted, load-Trusted, lookup_lem,
}

if_holds : {A : Type 0} (P : A → Type 0) (b : Bool) {x y : A} → P x → P y → P (if b then x else y)
if_holds P true p q = p
if_holds P false p q = q

module _ (verifier : Verifier) (config : Config) where
  -- The loads, looked up names and resolved addresses of a resolver, in any order; a request in flight
  -- ends at any later time.
  pub data Reached : State → Type 0 where
    reached_initial : Reached initial
    reached_begin : {s : State} → Reached s → Reached (begin_load verifier config s).1
    reached_finish :
        {s : State} (fetched : Result Text Snapshot) (now : ℕ)
        → Reached s
        → Reached (finish_load verifier config fetched now s).1
    reached_resolve :
        {s : State} (a : Address) (fetched : Result Text Snapshot) (now : ℕ)
        → Reached s
        → Reached (resolve verifier config a fetched now s).1

  after_load-state :
      (name : Text) (now : ℕ) (r : Result Text Unit × State)
      → (after_load verifier config name now r).1 ≡ r.1
  after_load-state name now (ok u, s) = refl
  after_load-state name now (err problem, s) = refl

  next_hop-state :
      (a : Address) (r : Result Text (Option Entry) × State)
      → (next_hop verifier config a r).1 ≡ r.1
  next_hop-state a (ok found, s) = refl
  next_hop-state a (err problem, s) = refl

  lookup-Trusted :
      (name : Text) (fetched : Result Text Snapshot) (now : ℕ) (s : State)
      → Trusted verifier config s
      → Trusted verifier config (lookup verifier config name fetched now s).1
  unfolding lookup
  lookup-Trusted name fetched now s h =
      if_holds {A = Result Text (Option Entry) × State} (λ r. Trusted verifier config r.1)
        (is_reserved_gateway_name name) h
        (if_holds {A = Result Text (Option Entry) × State} (λ r. Trusted verifier config r.1)
          (needs_load verifier config now s)
          (subst (Trusted verifier config)
            (sym (after_load-state name now (load verifier config fetched now s)))
            (load-Trusted verifier config fetched now s h))
          h)

  resolve-Trusted :
      (a : Address) (fetched : Result Text Snapshot) (now : ℕ) (s : State)
      → Trusted verifier config s
      → Trusted verifier config (resolve verifier config a fetched now s).1
  unfolding resolve
  resolve-Trusted a fetched now s h =
      let first_segment = split_head (split b'/' (paths a)) in
      if_holds {A = Result Text Address × State} (λ r. Trusted verifier config r.1)
        (text_eq first_segment [] || is_reserved_gateway_name first_segment) h
        (subst (Trusted verifier config)
          (sym (next_hop-state a (lookup verifier config first_segment fetched now s)))
          (lookup-Trusted first_segment fetched now s h))

  begin_load-Trusted :
      (s : State)
      → Trusted verifier config s
      → Trusted verifier config (begin_load verifier config s).1
  unfolding begin_load
  begin_load-Trusted s h = h

  Reached-Trusted : (s : State) → Reached s → Trusted verifier config s
  Reached-Trusted _ reached_initial = initial-Trusted verifier config
  Reached-Trusted _ (reached_begin {s} r) = begin_load-Trusted s (Reached-Trusted s r)
  Reached-Trusted _ (reached_finish {s} fetched now r) =
      finish_load-Trusted verifier config fetched now s (Reached-Trusted s r)
  Reached-Trusted _ (reached_resolve {s} a fetched now r) =
      resolve-Trusted a fetched now s (Reached-Trusted s r)

  ok_address : (a b : Address) → Path (Result Text Address) (ok a) (ok b) → a ≡ b
  ok_address a b e = cc

  abbrev Handed : Address → Text → ℕ → Address → Result Text Address × State → Type 0
  Handed a segment now b r =
      r.0 ≡ ok b
      → (b ≡ a)
        ⊎ ((found : Entry) × (b ≡ via verifier config a (some found))
            × Vouched verifier config segment now r.1 found)

  next_hop-Handed :
      (a b : Address) (segment : Text) (now : ℕ) (r : Result Text (Option Entry) × State)
      → ((found : Entry) → r.0 ≡ ok (some found) → Vouched verifier config segment now r.1 found)
      → Handed a segment now b (next_hop verifier config a r)
  next_hop-Handed a b segment now (err problem, s) h e = absurd (cc)
  next_hop-Handed a b segment now (ok none, s) h e = inl (sym (ok_address a b e))
  next_hop-Handed a b segment now (ok (some found), s) h e =
      inr (found, sym (ok_address (via verifier config a (some found)) b e), h found refl)

  -- Whatever was loaded and resolved before, in any order, the next hop is the address itself, or the
  -- leader behind the transports of an entry: one named like the first segment, which is not reserved,
  -- with a signature that was accepted, in a snapshot of the expected maintainer, accepted too, and no
  -- older than the configured age.
  pub resolve_lem :
      (a b : Address) (fetched : Result Text Snapshot) (now : ℕ) (s : State)
      → Reached s
      → (resolve verifier config a fetched now s).0 ≡ ok b
      → (b ≡ a)
        ⊎ ((found : Entry) × (b ≡ via verifier config a (some found))
            × Vouched verifier config
                (split_head (split b'/' (paths a)))
                now
                (resolve verifier config a fetched now s).1
                found)
  unfolding resolve
  resolve_lem a b fetched now s r =
      let first_segment = split_head (split b'/' (paths a)) in
      if_holds (Handed a first_segment now b)
        (text_eq first_segment [] || is_reserved_gateway_name first_segment)
        (λ e. inl (sym (ok_address a b e)))
        (next_hop-Handed a b first_segment now (lookup verifier config first_segment fetched now s)
          (λ found.
            lookup_lem verifier config first_segment fetched now s found (Reached-Trusted s r)))
