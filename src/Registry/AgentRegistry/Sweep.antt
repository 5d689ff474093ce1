-- ===== src/Registry/AgentRegistry/Sweep.antt =====
-- What a sweep leaves behind, and what it reports.
use olane.Common.{
  ℕ, ◌+◌, ◌≤◌, ◌≡◌, ◌↔◌, refl, sym, ap, ◌∙◌, Bool, true, false, not, some, Option-cases, Text,
  text_eq, get, ◌&&◌, [], ◌∷◌, All, length, arith, Bool-cases, inl, inr,
}
use olane.Registry.AgentRegistry.{
  State, RegistryEntry, pid_dead, expired, should_be_dead, mark, sweep_from, sweep,
}

module _ (is_pid_alive : ℕ → Bool) (now : ℕ) where
  -- Within the time to live, with its process, if it named one, alive.
  pub record IsAlive (e : RegistryEntry) : Type 0 where
    pub recent : now ≤ e.last_heartbeat_at + 90000
    pub running : (pid : ℕ) → e.registering_pid ≡ some pid → is_pid_alive pid ≡ true

  -- An entry as a sweep leaves it.
  pub record IsCurrent (e : RegistryEntry) : Type 0 where
    pub not_old : now ≤ e.last_heartbeat_at + 180000
    pub not_orphaned :
        (pid : ℕ)
        → e.registering_pid ≡ some pid
        → is_pid_alive pid ≡ false
        → now ≤ e.last_heartbeat_at + 90000
    pub live_iff : (e.live ≡ true) ↔ IsAlive e

  -- The same by the tests of the code.
  record IsMarked (e : RegistryEntry) : Type 0 where
    kept : expired is_pid_alive now e ≡ false
    marked : e.live ≡ not (should_be_dead is_pid_alive now e)

  -- Marking changes only `live`, which neither test reads.
  expired-mark :
      (e : RegistryEntry)
      → expired is_pid_alive now (mark is_pid_alive now e).0 ≡ expired is_pid_alive now e
  unfolding mark expired pid_dead
  expired-mark e = elim (Bool-cases (should_be_dead is_pid_alive now e && e.live)) [
    | inl h ↦ rw h
    | inr h ↦ elim (Bool-cases (not (should_be_dead is_pid_alive now e) && not e.live)) [
      | inl k ↦ rw (h, k)
      | inr k ↦ rw (h, k)
    ]
  ]

  should_be_dead-mark :
      (e : RegistryEntry)
      → should_be_dead is_pid_alive now (mark is_pid_alive now e).0
        ≡ should_be_dead is_pid_alive now e
  unfolding mark
  should_be_dead-mark e = elim (Bool-cases (should_be_dead is_pid_alive now e && e.live)) [
    | inl h ↦ rw h (unfold should_be_dead pid_dead in refl)
    | inr h ↦ elim (Bool-cases (not (should_be_dead is_pid_alive now e) && not e.live)) [
      | inl k ↦ rw (h, k) (unfold should_be_dead pid_dead in refl)
      | inr k ↦ rw (h, k)
    ]
  ]

  live-mark :
      (e : RegistryEntry)
      → (mark is_pid_alive now e).0.live ≡ not (should_be_dead is_pid_alive now e)
  unfolding mark
  live-mark e = ground arith

  mark-IsMarked :
      (e : RegistryEntry)
      → expired is_pid_alive now e ≡ false
      → IsMarked (mark is_pid_alive now e).0
  mark-IsMarked e h = record {
    kept = expired-mark e ∙ h;
    marked = live-mark e ∙ ap not (sym (should_be_dead-mark e));
  }

  mark_current : (e : RegistryEntry) → IsMarked e → mark is_pid_alive now e ≡ (e, false)
  unfolding mark
  mark_current e c = ground arith

  bounds :
      (e : RegistryEntry) (dead : Bool)
      → pid_dead is_pid_alive now e ≡ dead
      → IsMarked e
      → (now ≤ e.last_heartbeat_at + 180000)
        × (dead ≡ true → now ≤ e.last_heartbeat_at + 90000)
        × ((e.live ≡ true) ↔ ((now ≤ e.last_heartbeat_at + 90000) × (dead ≡ false)))
  unfolding expired should_be_dead
  bounds e dead h m = ground arith

  pid_dead-true :
      (e : RegistryEntry) (pid : ℕ)
      → e.registering_pid ≡ some pid
      → is_pid_alive pid ≡ false
      → pid_dead is_pid_alive now e ≡ true
  unfolding pid_dead
  pid_dead-true e pid named gone = ground arith

  pid_dead-false :
      (e : RegistryEntry)
      → ((pid : ℕ) → e.registering_pid ≡ some pid → is_pid_alive pid ≡ true)
      → pid_dead is_pid_alive now e ≡ false
  unfolding pid_dead
  pid_dead-false e running = elim (Option-cases e.registering_pid) [
    | inl none_named ↦ ground arith
    | inr (pid, named) ↦ let alive = running pid named in ground arith
  ]

  pid_running :
      (e : RegistryEntry) (pid : ℕ)
      → pid_dead is_pid_alive now e ≡ false
      → e.registering_pid ≡ some pid
      → is_pid_alive pid ≡ true
  unfolding pid_dead
  pid_running e pid alive named = ground arith

  IsMarked→IsCurrent : (e : RegistryEntry) → IsMarked e → IsCurrent e
  IsMarked→IsCurrent e m =
      let (not_old, orphan, live_iff) = bounds e (pid_dead is_pid_alive now e) refl m in
      record {
        not_old = not_old;
        not_orphaned = λ pid named gone. orphan (pid_dead-true e pid named gone);
        live_iff = (
          λ l.
              let (r, d) = live_iff.0 l in
              record { recent = r; running = λ pid named. pid_running e pid d named },
          λ a. live_iff.1 (a.recent, pid_dead-false e a.running),
        );
      }

  -- A sweep treats the entry of an address by itself.
  pub get-sweep :
      (address : Text) (entries : State) (e : RegistryEntry)
      → get address entries ≡ some e
      → expired is_pid_alive now e ≡ false
      → get address (sweep is_pid_alive now entries).0 ≡ some (mark is_pid_alive now e).0
  unfolding get sweep sweep_from
  get-sweep address [] e h k = absurd (cc)
  get-sweep address ((j, d) ∷ entries) e h k = elim (Bool-cases (text_eq j address)) [
    | inl same ↦ let one : d ≡ e = ground arith in rw (one, k) (rw same)
    | inr other ↦
        let ih = get-sweep address entries e (rw other at h) k in
        elim (Bool-cases (expired is_pid_alive now d)) [
          | inl gone ↦ rw gone ih
          | inr stays ↦ rw stays (rw other ih)
        ]
  ]

  swept-IsMarked : (entries : State) → All (λ a. IsMarked a.1) (sweep is_pid_alive now entries).0
  unfolding sweep sweep_from
  swept-IsMarked [] = tt
  swept-IsMarked ((address, e) ∷ entries) = elim (Bool-cases (expired is_pid_alive now e)) [
    | inl h ↦ rw h (swept-IsMarked entries)
    | inr h ↦ rw h (mark-IsMarked e h, swept-IsMarked entries)
  ]

  swept-IsCurrent :
      (entries : State) → All (λ a. IsMarked a.1) entries → All (λ a. IsCurrent a.1) entries
  swept-IsCurrent [] h = tt
  swept-IsCurrent ((address, e) ∷ entries) (m, h) =
      (IsMarked→IsCurrent e m, swept-IsCurrent entries h)

  recent_stays :
      (e : RegistryEntry) → now ≤ e.last_heartbeat_at + 90000 → expired is_pid_alive now e ≡ false
  unfolding expired
  recent_stays e h = ground arith

  mark_same :
      (e : RegistryEntry)
      → ((mark is_pid_alive now e).0.last_heartbeat_at ≡ e.last_heartbeat_at)
        × ((mark is_pid_alive now e).0.card ≡ e.card)
  unfolding mark
  mark_same e = elim (Bool-cases (should_be_dead is_pid_alive now e && e.live)) [
    | inl h ↦ rw h (refl, refl)
    | inr h ↦ elim (Bool-cases (not (should_be_dead is_pid_alive now e) && not e.live)) [
      | inl k ↦ rw (h, k) (refl, refl)
      | inr k ↦ rw (h, k) (refl, refl)
    ]
  ]

  -- After a sweep no entry is older than 180 seconds, or older than 90 with the process that it named
  -- gone, and an entry is live exactly if it is not older than 90 seconds and its process, if it named
  -- one, lives. An entry that is not older than 90 seconds is still there, with its card and its time.
  pub sweep-IsCurrent :
      (entries : State)
      → All (λ a. IsCurrent a.1) (sweep is_pid_alive now entries).0
        × ((address : Text) (e : RegistryEntry)
            → get address entries ≡ some e
            → now ≤ e.last_heartbeat_at + 90000
            → (d : RegistryEntry) × (get address (sweep is_pid_alive now entries).0 ≡ some d)
              × (d.last_heartbeat_at ≡ e.last_heartbeat_at)
              × (d.card ≡ e.card))
  sweep-IsCurrent entries = (
    swept-IsCurrent (sweep is_pid_alive now entries).0 (swept-IsMarked entries),
    λ address e h recent. (
      (mark is_pid_alive now e).0,
      get-sweep address entries e h (recent_stays e recent),
      (mark_same e).0,
      (mark_same e).1,
    ),
  )

  -- The report adds up: every entry that was there is counted once, as kept or as removed.
  pub sweep_counts :
      (entries : State)
      → ((sweep is_pid_alive now entries).1.examined ≡ length entries)
        × (length (sweep is_pid_alive now entries).0 + (sweep is_pid_alive now entries).1.removed
            ≡ length entries)
        × ((sweep is_pid_alive now entries).1.marked_dead
            ≤ length (sweep is_pid_alive now entries).0)
  unfolding sweep sweep_from
  sweep_counts [] = (refl, refl, omega arith)
  sweep_counts ((address, e) ∷ entries) = let (p, q, r) = sweep_counts entries in ground arith

  sweep_current :
      (entries : State)
      → All (λ a. IsMarked a.1) entries
      → sweep_from is_pid_alive now entries ≡ (entries, 0, 0)
  unfolding sweep_from
  sweep_current [] h = refl
  sweep_current ((address, e) ∷ entries) (c, h) =
      rw (c.kept, mark_current e c, sweep_current entries h)
