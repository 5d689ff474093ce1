-- ===== src/Node/Heartbeat/Failures.antt =====
-- How failures add up, role by role.
use olane.Common.{
  ℕ, zero, suc, ◌+◌, ◌≤◌, ◌<◌, ◌≡◌, refl, ◌∙◌, true, false, [], ◌∷◌, ◌++◌, none, some, Text, Dict,
  text_eq_refl, get, set, delete, get-set_self, get-delete, if◌then◌else◌, leb, or_default,
  Bool-cases, inl, inr, arith,
}
use olane.Node.Heartbeat.{
  HeartbeatConfig, ConnectionHealth, healthy, Role, parent, child, leader, State, Event, child_left,
  parent_disconnected, leader_disconnected, connection_degraded, connection_recovered, event_role,
  half_up, fresh_health, is_degraded, check_reachable, on_open, on_closed, handle_connection_dead,
}

-- The health that is on record for an address, or that of an address that is new.
abbrev pub health_of : Text → State → ConnectionHealth
health_of key s = or_default (get key s.health_map) fresh_health

-- What a death is announced by.
abbrev pub death_event : Role → Text → Event
death_event child key = child_left key
death_event parent key = parent_disconnected key
death_event leader key = leader_disconnected key

get-delete_self {ℓ} : {V : Type ℓ} (key : Text) (m : Dict V) → get key (delete key m) ≡ none
get-delete_self key m = rw (get-delete key key m, text_eq_refl key)

-- A check that finds the connection open clears the failures, and announces a recovery exactly if
-- the connection was degraded.
pub check_reachable_open :
    (config : HeartbeatConfig) (now : ℕ) (key : Text) (role : Role) (s : State)
    → let t = check_reachable config now true key role s in
      (get key t.health_map
        ≡ some (record { last_successful_ping = now; consecutive_failures = 0; status = healthy }))
      × (t.events ≡ (
          if is_degraded (health_of key s).status
          then s.events ++ connection_recovered (event_role role) key ∷ []
          else s.events))
unfolding check_reachable on_open
check_reachable_open config now key role s =
    elim (Bool-cases (is_degraded (health_of key s).status)) [
      | inl e ↦ rw e (get-set_self key _ s.health_map, refl)
      | inr e ↦ rw e (get-set_self key _ s.health_map, refl)
    ]

module _ (config : HeartbeatConfig) (now : ℕ) (key : Text) (role : Role) (s : State) where
  abbrev failures : ℕ
  failures = (health_of key s).consecutive_failures + 1

  -- A failed check below the threshold counts one more failure, and from half the threshold on
  -- marks the connection as degraded and announces it.
  pub check_reachable_failing :
      failures < config.failure_threshold
      → let t = check_reachable config now false key role s in
        ((health_of key t).consecutive_failures ≡ failures)
        × (t.events ≡ (
            if leb (half_up config.failure_threshold) failures
            then s.events ++ connection_degraded (event_role role) key ∷ []
            else s.events))
        × (t.removed_children ≡ s.removed_children)
  unfolding check_reachable on_closed
  check_reachable_failing h =
      let below : leb config.failure_threshold failures ≡ false = ground arith in
      elim (Bool-cases (leb (half_up config.failure_threshold) failures)) [
        | inl e ↦ rw (below, e) (rw (get-set_self key _ s.health_map), refl, refl)
        | inr e ↦ rw (below, e) (rw (get-set_self key _ s.health_map), refl, refl)
      ]

  -- The failure that reaches the threshold drops the connection from the records and announces the
  -- death to the listeners of its role; a child, and only a child, is removed from the hierarchy.
  pub check_reachable_dead :
      config.failure_threshold ≤ failures
      → let t = check_reachable config now false key role s in
        (get key t.health_map ≡ none)
        × (t.events ≡ s.events ++ death_event role key ∷ [])
        × (t.removed_children
            ≡ (elim role [ child ↦ s.removed_children ++ key ∷ [] | _ ↦ s.removed_children ]))
  unfolding check_reachable on_closed handle_connection_dead
  check_reachable_dead h =
      let reached : leb config.failure_threshold failures ≡ true = ground arith in
      rw reached (by_role role)
    where
      by_role :
          (r : Role)
          → let t = handle_connection_dead key r (record s {
            health_map =
                set key (record (health_of key s) { consecutive_failures = failures }) s.health_map;
          }) in
            (get key t.health_map ≡ none)
            × (t.events ≡ s.events ++ death_event r key ∷ [])
            × (t.removed_children
                ≡ (elim r [ child ↦ s.removed_children ++ key ∷ [] | _ ↦ s.removed_children ]))
      by_role parent = (get-delete_self key _, refl, refl)
      by_role child = (get-delete_self key _, refl, refl)
      by_role leader = (get-delete_self key _, refl, refl)

-- That many failed checks in a row.
unfoldable pub fail_times : ℕ → HeartbeatConfig → Text → Role → State → State
fail_times zero config key role s = s
fail_times (suc n) config key role s =
    check_reachable config 0 false key role (fail_times n config key role s)

fail_times_count :
    (n : ℕ) (config : HeartbeatConfig) (key : Text) (role : Role) (s : State)
    → (health_of key s).consecutive_failures ≡ 0
    → n < config.failure_threshold
    → (health_of key (fail_times n config key role s)).consecutive_failures ≡ n
unfolding fail_times
fail_times_count zero config key role s e h = e
fail_times_count (suc n) config key role s e h =
    let ih = fail_times_count n config key role s e (omega arith) in
    (check_reachable_failing config 0 key role (fail_times n config key role s) (omega arith)).0
    ∙ omega (arith, ih)

-- A connection without failures, as one that is new to the records, survives every failed check
-- before the threshold's, each counted, and is dropped and announced as dead by that one.
pub fail_times_dead :
    (n : ℕ) (config : HeartbeatConfig) (key : Text) (role : Role) (s : State)
    → (health_of key s).consecutive_failures ≡ 0
    → config.failure_threshold ≡ suc n
    → ((k : ℕ) → k ≤ n → (health_of key (fail_times k config key role s)).consecutive_failures ≡ k)
      × (get key (fail_times (suc n) config key role s).health_map ≡ none)
      × ((fail_times (suc n) config key role s).events
          ≡ (fail_times n config key role s).events ++ death_event role key ∷ [])
unfolding fail_times
fail_times_dead n config key role s e h =
    let count = fail_times_count n config key role s e (omega arith) in
    let (gone, told, _) =
      check_reachable_dead config 0 key role (fail_times n config key role s) (omega arith) in
    (λ k le. fail_times_count k config key role s e (omega arith), gone, told)

-- One check that finds the connection open forgives all failures before it: the connection survives
-- as many failed checks again as a new one, and is dropped by the one that reaches the threshold.
pub check_reachable_forgives :
    (now n : ℕ) (config : HeartbeatConfig) (key : Text) (role : Role) (s : State)
    → config.failure_threshold ≡ suc n
    → let t = check_reachable config now true key role s in
      ((k : ℕ) → k ≤ n → (health_of key (fail_times k config key role t)).consecutive_failures ≡ k)
      × (get key (fail_times (suc n) config key role t).health_map ≡ none)
check_reachable_forgives now n config key role s h =
    let t = check_reachable config now true key role s in
    let well = (check_reachable_open config now key role s).0 in
    let (counted, gone, _) = fail_times_dead n config key role t (rw well refl) h in (counted, gone)
