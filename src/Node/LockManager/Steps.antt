-- ===== src/Node/LockManager/Steps.antt =====
-- Calls of `withLock` in any interleaving. A call is idle, waits for a promise, or runs its function
-- with the lock held; `finally` releases the lock whether the function returns or throws.
use olane.Common.{ℕ, ◌≡◌, ◌⊎◌, List, [], ◌∷◌, Text, ◌==◌, if◌then◌else◌}
use olane.Node.LockManager.{Locks, Attempt, acquired, wait, spin, acquire, release}

pub data Phase : Type 0 where
  idle : Phase
  waiting : Text → ℕ → Phase
  holding : Text → Phase
  stuck : Text → Phase

pub record Config : Type 0 where
  pub manager : Locks
  pub phase : ℕ → Phase

abbrev pub at_call : ℕ → Phase → (ℕ → Phase) → ℕ → Phase
at_call t p f u = if u == t then p else f u

-- The phase of a call after a round of the loop.
abbrev pub after : Text → Attempt → Phase
after name acquired = holding name
after name (wait p) = waiting name p
after name spin = stuck name

abbrev pub Resolved : ℕ → List ℕ → Type 0
Resolved p [] = ⊥
Resolved p (q ∷ qs) = (p ≡ q) ⊎ Resolved p qs

abbrev pub attempt : ℕ → Text → Config → Config
attempt t name c = record {
  manager = (acquire name c.manager).1;
  phase = at_call t (after name (acquire name c.manager).0) c.phase;
}

abbrev pub finish : ℕ → Text → Config → Config
finish t name c = record { manager = release name c.manager; phase = at_call t idle c.phase }

pub data Step (c : Config) : Config → Type 0 where
  -- `acquire` is called
  call : (t : ℕ) (name : Text) → c.phase t ≡ idle → Step c (attempt t name c)
  -- the awaited promise is resolved, and the loop goes round
  resume :
      (t : ℕ) (name : Text) (p : ℕ)
      → c.phase t ≡ waiting name p
      → Resolved p c.manager.resolved
      → Step c (attempt t name c)
  -- the timeout rejects first, and `acquire` throws
  timeout :
      (t : ℕ) (name : Text) (p : ℕ)
      → c.phase t ≡ waiting name p
      → Step c (record c { phase = at_call t idle c.phase })
  -- the function ends, by a value or by an exception
  leave : (t : ℕ) (name : Text) → c.phase t ≡ holding name → Step c (finish t name c)

pub data Reach (c : Config) : Config → Type 0 where
  here : Reach c c
  more : {d e : Config} → Reach c d → Step d e → Reach c e
