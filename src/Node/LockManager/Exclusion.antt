-- ===== src/Node/LockManager/Exclusion.antt =====
-- Mutual exclusion, and that no waiter is forgotten.
use olane.Common.{ℕ, ◌≡◌, ◌≢◌, ◌⊎◌, inl, inr, Text}
use olane.Node.LockManager.Steps.{waiting, holding, stuck, Config, finish, Resolved, Reach}
use olane.Node.LockManager.Invariant.{start, start-IsSafe, Reach-IsSafe, Resolved-release}

-- Whatever the calls do and in whatever order, two of them never hold one lock at a time.
pub mutual_exclusion :
    (c : Config) (t u : ℕ) (name : Text)
    → Reach start c
    → c.phase t ≡ holding name
    → c.phase u ≡ holding name
    → t ≡ u
mutual_exclusion c t u name r h k = (Reach-IsSafe start-IsSafe r).exclusive t u name h k

-- A call that waits either has been woken, or some call holds the lock and will wake it: that
-- call's release resolves the promise.
pub no_lost_wakeup :
    (c : Config) (t : ℕ) (name : Text) (p : ℕ)
    → Reach start c
    → c.phase t ≡ waiting name p
    → Resolved p c.manager.resolved
      ⊎ ((u : ℕ) × (c.phase u ≡ holding name) × Resolved p (finish u name c).manager.resolved)
no_lost_wakeup c t name p r h =
    let v = Reach-IsSafe start-IsSafe r in
    elim (v.waiters t name p h) [
      | inl done ↦ inl done
      | inr a ↦
          let (u, hu) = v.owned name a.held in inr (u, hu, Resolved-release name c.manager p a)
    ]

-- No call ever goes round the loop of `acquire` without waiting.
pub never_spins : (c : Config) (t : ℕ) (name : Text) → Reach start c → c.phase t ≢ stuck name
never_spins c t name r = (Reach-IsSafe start-IsSafe r).unstuck t name
