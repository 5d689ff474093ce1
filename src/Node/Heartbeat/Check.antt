-- ===== src/Node/Heartbeat/Check.antt =====
-- What counts as an open connection, and which addresses a cycle checks.
use olane.Common.{
  is_some, or_default, ◌⊎◌, set, get-set, ℕ, ◌≡◌, refl, Bool, true, false, ◌||◌, List, [], ◌∷◌,
  Option, none, some, Text, text_eq, get, any, All, Bool-cases, inl, inr, arith,
}
use olane.Core.Address.{Address, Transport, libp2p_transports}
use olane.Node.Heartbeat.{
  ConnectionHealth, fresh_health, is_degraded, on_open, HeartbeatConfig, Connections, Node, Role,
  State, healthy, check_connection_status, check_target, check_reachable, targets, check_all,
  perform_health_check_cycle,
}
use olane.Node.Heartbeat.Failures.{check_reachable_open}

module _ (connections : Connections) (node : Node) (a : Address) (t : Transport)
    (ts : List Transport) (flags : List Bool) where
  answers :
      libp2p_transports a ≡ t ∷ ts
      → connections t ≡ some flags
      → check_connection_status connections node a ≡ true
  unfolding check_connection_status
  answers e c = elim (Bool-cases (text_eq a.value node.address)) [
    | inl self ↦ rw self
    | inr other ↦ rw (other, e, c, check_connection_status) (or_true (any (λ b. b) flags))
  ]
    where
      or_true : (b : Bool) → (b || true) ≡ true
      or_true b = ground arith

  check_target-reachable :
      (config : HeartbeatConfig) (now : ℕ) (is_open : Bool) (role : Role) (s : State)
      → libp2p_transports a ≡ t ∷ ts
      → check_target config now is_open a role s ≡ check_reachable config now is_open a.value role s
  unfolding check_target
  check_target-reachable config now is_open role s e = rw (e, check_target)

-- Whatever libp2p answers of a peer, even that none of its connections is open, the check of an
-- address with a transport records no failure: only a call that throws counts as one.
pub any_answer_is_open :
    (connections : Connections) (config : HeartbeatConfig) (node : Node) (now : ℕ) (a : Address)
    (role : Role) (s : State) (t : Transport) (ts : List Transport) (flags : List Bool)
    → libp2p_transports a ≡ t ∷ ts
    → connections t ≡ some flags
    → let u = check_target config now (check_connection_status connections node a) a role s in
      get a.value u.health_map
      ≡ some (record { last_successful_ping = now; consecutive_failures = 0; status = healthy })
any_answer_is_open connections config node now a role s t ts flags e c =
    rw
      (
        answers connections node a t ts flags e c,
        check_target-reachable connections node a t ts flags config now true role s e,
      )
      (check_reachable_open config now a.value role s).0

abbrev pub first {ℓ} : {A : Type ℓ} → List A → Option A
first [] = none
first (x ∷ xs) = some x

abbrev pub IsWell : ℕ → Option ConnectionHealth → Type 0
IsWell now h =
    h ≡ some (record { last_successful_ping = now; consecutive_failures = 0; status = healthy })

abbrev pub IsReachable : Address → Type 0
IsReachable a = is_some (first (libp2p_transports a)) ≡ true

check_reachable_keeps :
    (config : HeartbeatConfig) (now : ℕ) (key other : Text) (role : Role) (s : State)
    → IsWell now (get other s.health_map)
    → IsWell now (get other (check_reachable config now true key role s).health_map)
unfolding check_reachable on_open
check_reachable_keeps config now key other role s e =
    let health = or_default (get key s.health_map) fresh_health in
    let h : ConnectionHealth = record {
      last_successful_ping = now;
      consecutive_failures = 0;
      status = healthy;
    } in
    let kept : IsWell now (get other (set key h s.health_map)) =
      elim (Bool-cases (text_eq key other)) [
        | inl same ↦ rw (get-set key other h s.health_map, same) refl
        | inr differs ↦ rw (get-set key other h s.health_map, differs) e
      ] in
    elim (Bool-cases (is_degraded health.status)) [ inl d ↦ rw d kept | inr d ↦ rw d kept ]

cons-cases {ℓ} : {A : Type ℓ} (xs : List A) → (xs ≡ []) ⊎ ((y : A) × (ys : List A) × (xs ≡ y ∷ ys))
cons-cases [] = inl refl
cons-cases (y ∷ ys) = inr (y, ys, refl)

some-witness {ℓ} : {A : Type ℓ} (o : Option A) → is_some o ≡ true → (a : A) × (o ≡ some a)
some-witness none e = ground arith
some-witness (some a) e = (a, refl)

module _ (connections : Connections) (config : HeartbeatConfig) (node : Node) (now : ℕ)
    (answered : (t : Transport) → is_some (connections t) ≡ true) where
  abbrev checked : Address → Role → State → State
  checked a role s = check_target config now (check_connection_status connections node a) a role s

  check_target_none :
      (a : Address) (role : Role) (s : State) → libp2p_transports a ≡ [] → checked a role s ≡ s
  unfolding check_target
  check_target_none a role s e = rw (e, check_target) refl

  checked-IsWell :
      (a : Address) (role : Role) (s : State)
      → IsReachable a
      → IsWell now (get a.value (checked a role s).health_map)
  checked-IsWell a role s h = elim (cons-cases (libp2p_transports a)) [
    | inl bare ↦ ground (arith, bare, h)
    | inr (t, ts, e) ↦
        let (flags, c) = some-witness (connections t) (answered t) in
        any_answer_is_open connections config node now a role s t ts flags e c
  ]

  checked_keeps :
      (a : Address) (role : Role) (other : Text) (s : State)
      → IsWell now (get other s.health_map)
      → IsWell now (get other (checked a role s).health_map)
  checked_keeps a role other s e = elim (cons-cases (libp2p_transports a)) [
    | inl bare ↦ rw (check_target_none a role s bare) e
    | inr (t, ts, h) ↦
        let (flags, c) = some-witness (connections t) (answered t) in
        rw
          (
            answers connections node a t ts flags h c,
            check_target-reachable connections node a t ts flags config now true role s h,
          )
          (check_reachable_keeps config now a.value other role s e)
  ]

  check_all_keeps :
      (rest : List (Address × Role)) (other : Text) (s : State)
      → IsWell now (get other s.health_map)
      → IsWell now (get other (check_all connections config node now rest s).health_map)
  unfolding check_all
  check_all_keeps [] other s e = e
  check_all_keeps ((a, role) ∷ rest) other s e =
      check_all_keeps rest other (checked a role s) (checked_keeps a role other s e)

  check_all_lem :
      (rest : List (Address × Role)) (s : State)
      → All
          (λ z.
            IsReachable z.0
            → IsWell now (get z.0.value (check_all connections config node now rest s).health_map))
          rest
  unfolding check_all
  check_all_lem [] s = tt
  check_all_lem ((a, role) ∷ rest) s = (
    λ h. check_all_keeps rest a.value (checked a role s) (checked-IsWell a role s h),
    check_all_lem rest (checked a role s),
  )

  -- A cycle in which libp2p answers for every peer leaves each of its targets that has a transport on
  -- record as healthy, without failures, and the next cycle free to run.
  pub perform_health_check_cycle_lem :
      (s : State)
      → s.is_running ≡ false
      → let t = perform_health_check_cycle connections config node now s in
        (t.is_running ≡ false)
        × All (λ z. IsReachable z.0 → IsWell now (get z.0.value t.health_map)) (targets config node)
  unfolding perform_health_check_cycle
  perform_health_check_cycle_lem s idle =
      rw idle (refl, check_all_lem (targets config node) (record s { is_running = true }))
