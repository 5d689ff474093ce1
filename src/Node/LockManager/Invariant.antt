-- ===== src/Node/LockManager/Invariant.antt =====
-- What holds of every configuration that the calls can reach.
use olane.Common.{
  ℕ, ◌≡◌, refl, sym, ◌∙◌, ◌≢◌, ◌⊎◌, inl, inr, true, false, some, Text, text_eq, text_eq_iff,
  text_eq_refl, get, set, get-set, get-delete, ◌==◌, if◌then◌else◌, Bool-cases, Option-cases, arith,
}
use olane.Node.LockManager.{Locks, empty, is_locked, take_lock, acquire, resolve_waiters, release}
use olane.Node.LockManager.Steps.{
  Phase, idle, waiting, holding, stuck, Config, at_call, attempt, finish, Resolved, Step, call,
  resume, timeout, leave, Reach, here, more,
}

-- The promise of a lock that is held: a waiter finds it, and `release` resolves it.
pub record Armed (name : Text) (s : Locks) (p : ℕ) : Type 0 where
  pub held : is_locked name s ≡ true
  pub promise : get name s.locks ≡ some p
  pub resolver : get name s.resolvers ≡ some p

pub record IsSafe (c : Config) : Type 0 where
  pub exclusive : (t u : ℕ) (n : Text) → c.phase t ≡ holding n → c.phase u ≡ holding n → t ≡ u
  pub locked : (t : ℕ) (n : Text) → c.phase t ≡ holding n → is_locked n c.manager ≡ true
  pub owned : (n : Text) → is_locked n c.manager ≡ true → (t : ℕ) × (c.phase t ≡ holding n)
  pub armed : (n : Text) → is_locked n c.manager ≡ true → (p : ℕ) × Armed n c.manager p
  pub waiters :
      (t : ℕ) (n : Text) (p : ℕ)
      → c.phase t ≡ waiting n p
      → Resolved p c.manager.resolved ⊎ Armed n c.manager p
  pub unstuck : (t : ℕ) (n : Text) → c.phase t ≢ stuck n

-- The parts of the manager after each operation, name by name.
is_locked-take :
    (n name : Text) (s : Locks)
    → is_locked n (take_lock name s) ≡ (if text_eq name n then true else is_locked n s)
unfolding is_locked take_lock
is_locked-take n name s = ground (arith, get-set name n true s.lock_states)

release_parts :
    (name : Text) (s : Locks)
    → ((release name s).lock_states ≡ set name false s.lock_states)
      × ((release name s).locks ≡ s.locks)
unfolding release resolve_waiters
release_parts name s = elim (Option-cases (get name s.resolvers)) [
  | inl e ↦ rw (e, resolve_waiters) (refl, refl)
  | inr (p, e) ↦ rw (e, resolve_waiters) (refl, refl)
]

is_locked-release :
    (n name : Text) (s : Locks)
    → is_locked n (release name s) ≡ (if text_eq name n then false else is_locked n s)
unfolding is_locked
is_locked-release n name s =
    ground (arith, (release_parts name s).0, get-set name n false s.lock_states)

Armed-take_self : (name : Text) (s : Locks) → Armed name (take_lock name s) s.next_promise
unfolding take_lock is_locked
Armed-take_self name s = record {
  held = ground (arith, get-set name name true s.lock_states, text_eq_refl name);
  promise = ground (arith, get-set name name s.next_promise s.locks, text_eq_refl name);
  resolver = ground (arith, get-set name name s.next_promise s.resolvers, text_eq_refl name);
}

Armed-take_other :
    (n name : Text) (s : Locks) (p : ℕ)
    → text_eq name n ≡ false
    → Armed n s p
    → Armed n (take_lock name s) p
unfolding take_lock is_locked
Armed-take_other n name s p d a = record {
  held = ground (arith, a.held, get-set name n true s.lock_states);
  promise = ground (arith, a.promise, get-set name n s.next_promise s.locks);
  resolver = ground (arith, a.resolver, get-set name n s.next_promise s.resolvers);
}

resolver-release_other :
    (n name : Text) (s : Locks)
    → text_eq name n ≡ false
    → get n (release name s).resolvers ≡ get n s.resolvers
unfolding release resolve_waiters
resolver-release_other n name s d = elim (Option-cases (get name s.resolvers)) [
  | inl e ↦ rw (e, resolve_waiters)
  | inr (p, e) ↦ rw (e, resolve_waiters) (rw (get-delete name n s.resolvers, d))
]

pub Armed-release_other :
    (n name : Text) (s : Locks) (p : ℕ)
    → text_eq name n ≡ false
    → Armed n s p
    → Armed n (release name s) p
Armed-release_other n name s p d a = record {
  held = rw (is_locked-release n name s, d) a.held;
  promise = rw (release_parts name s).1 a.promise;
  resolver = resolver-release_other n name s d ∙ a.resolver;
}

-- Releasing a lock resolves the promise that its waiters wait for.
pub Resolved-release :
    (name : Text) (s : Locks) (p : ℕ) → Armed name s p → Resolved p (release name s).resolved
unfolding release resolve_waiters
Resolved-release name s p a = rw (a.resolver, resolve_waiters) (inl refl)

pub Resolved-release_old :
    (name : Text) (s : Locks) (q : ℕ) → Resolved q s.resolved → Resolved q (release name s).resolved
unfolding release resolve_waiters
Resolved-release_old name s q h = elim (Option-cases (get name s.resolvers)) [
  | inl e ↦ rw (e, resolve_waiters) h
  | inr (p, e) ↦ rw (e, resolve_waiters) (inr h)
]

abbrev NotHolding : ℕ → Config → Type 0
NotHolding t c = (n : Text) → c.phase t ≢ holding n

module _ (t : ℕ) (name : Text) (c : Config) (v : IsSafe c) where
  -- A call that gets the lock: it was free, so nobody held it and every waiter of it is awake.
  take-IsSafe :
      NotHolding t c
      → is_locked name c.manager ≡ false
      → IsSafe
          (record { manager = take_lock name c.manager; phase = at_call t (holding name) c.phase })
  take-IsSafe outside free = record {
    exclusive = λ u w n hu hw. ground (arith, v.exclusive u w n, v.locked u n, v.locked w n);
    locked =
        λ u n hu. ground (arith, is_locked-take n name c.manager, text_eq_iff name n, v.locked u n);
    owned = λ n h. elim (Bool-cases (text_eq name n)) [
      | inl e ↦ (t, ground (arith, text_eq_iff name n))
      | inr e ↦
          let (u, hu) = v.owned n (rw (is_locked-take n name c.manager, e) at h) in
          (u, ground (arith, outside n))
    ];
    armed = λ n h. elim (Bool-cases (text_eq name n)) [
      | inl e ↦
          let same : name ≡ n = (text_eq_iff name n).0 e in
          (c.manager.next_promise, rw (← same) (Armed-take_self name c.manager))
      | inr e ↦
          let (p, a) = v.armed n (rw (is_locked-take n name c.manager, e) at h) in
          (p, Armed-take_other n name c.manager p e a)
    ];
    waiters = λ u n p hu. elim (Bool-cases (u == t)) [
      | inl e ↦ absurd (let no = rw e at hu in cc)
      | inr e ↦ elim (v.waiters u n p (rw e at hu)) [
        | inl done ↦ inl (unfold take_lock in done)
        | inr a ↦ elim (Bool-cases (text_eq name n)) [
          | inl same ↦ absurd (let no = a.held in ground (arith, text_eq_iff name n))
          | inr other ↦ inr (Armed-take_other n name c.manager p other a)
        ]
      ]
    ];
    unstuck = λ u n h. ground (arith, v.unstuck u n);
  }

  -- A call that has to wait, or that gives up waiting, changes nothing but itself.
  rest-IsSafe :
      (ph : Phase)
      → NotHolding t c
      → ((n : Text) → ph ≢ holding n)
      → ((n : Text) → ph ≢ stuck n)
      → ((n : Text) (p : ℕ)
          → ph ≡ waiting n p
          → Resolved p c.manager.resolved ⊎ Armed n c.manager p)
      → IsSafe (record c { phase = at_call t ph c.phase })
  rest-IsSafe ph outside not_holding not_stuck watched = record {
    exclusive = λ u w n hu hw. ground (arith, v.exclusive u w n, not_holding n);
    locked = λ u n hu. ground (arith, v.locked u n, not_holding n);
    owned = λ n h. let (u, hu) = v.owned n h in (u, ground (arith, outside n));
    armed = v.armed;
    waiters = λ u n p hu. elim (Bool-cases (u == t)) [
      | inl e ↦ watched n p (rw e at hu)
      | inr e ↦ v.waiters u n p (rw e at hu)
    ];
    unstuck = λ u n h. ground (arith, v.unstuck u n, not_stuck n);
  }

  attempt-IsSafe : NotHolding t c → IsSafe (attempt t name c)
  unfolding acquire
  attempt-IsSafe outside = elim (Bool-cases (is_locked name c.manager)) [
    | inl held ↦
        let (p, a) = v.armed name held in
        rw (held, a.promise)
          (rest-IsSafe (waiting name p) outside (λ n. cc) (λ n. cc)
            (λ n q e. inr (let one : name ≡ n = cc in let two : p ≡ q = cc in rw (← one, ← two) a)))
    | inr free ↦ rw free (take-IsSafe outside free)
  ]

  finish-IsSafe : c.phase t ≡ holding name → IsSafe (finish t name c)
  finish-IsSafe inside = record {
    exclusive = λ u w n hu hw. ground (arith, v.exclusive u w n);
    locked = λ u n hu. ground (
      arith,
      is_locked-release n name c.manager,
      text_eq_iff name n,
      v.locked u n,
      v.exclusive u t n,
    );
    owned = λ n h. elim (Bool-cases (text_eq name n)) [
      | inl e ↦ absurd (let no = rw (is_locked-release n name c.manager, e) at h in cc)
      | inr e ↦
          let (u, hu) = v.owned n (rw (is_locked-release n name c.manager, e) at h) in
          (u, ground (arith, text_eq_iff name n))
    ];
    armed = λ n h. elim (Bool-cases (text_eq name n)) [
      | inl e ↦ absurd (let no = rw (is_locked-release n name c.manager, e) at h in cc)
      | inr e ↦
          let (p, a) = v.armed n (rw (is_locked-release n name c.manager, e) at h) in
          (p, Armed-release_other n name c.manager p e a)
    ];
    waiters = λ u n p hu. elim (Bool-cases (u == t)) [
      | inl e ↦ absurd (let no = rw e at hu in cc)
      | inr e ↦ elim (v.waiters u n p (rw e at hu)) [
        | inl done ↦ inl (Resolved-release_old name c.manager p done)
        | inr a ↦ elim (Bool-cases (text_eq name n)) [
          | inl same ↦
              let one : n ≡ name = sym ((text_eq_iff name n).0 same) in
              inl (Resolved-release name c.manager p (rw one at a))
          | inr other ↦ inr (Armed-release_other n name c.manager p other a)
        ]
      ]
    ];
    unstuck = λ u n h. ground (arith, v.unstuck u n);
  }

Step-IsSafe : {c d : Config} → Step c d → IsSafe c → IsSafe d
Step-IsSafe {c} (call t name e) v = attempt-IsSafe t name c v (λ n h. cc)
Step-IsSafe {c} (resume t name p e r) v = attempt-IsSafe t name c v (λ n h. cc)
Step-IsSafe {c} (timeout t name p e) v =
    rest-IsSafe t name c v idle (λ n h. cc) (λ n. cc) (λ n. cc) (λ n q. cc)
Step-IsSafe {c} (leave t name e) v = finish-IsSafe t name c v e

abbrev pub start : Config
start = record { manager = empty; phase = λ t. idle }

pub start-IsSafe : IsSafe start
unfolding is_locked get
start-IsSafe = record {
  exclusive = λ t u n h k. cc;
  locked = λ t n h. cc;
  owned = λ n h. cc;
  armed = λ n h. cc;
  waiters = λ t n p h. cc;
  unstuck = λ t n h. cc;
}

pub Reach-IsSafe : {c d : Config} → IsSafe c → Reach c d → IsSafe d
Reach-IsSafe v here = v
Reach-IsSafe v (more r s) = Step-IsSafe s (Reach-IsSafe v r)
