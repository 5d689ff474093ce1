-- ===== src/Node/LockManager/Clear.antt =====
-- `clearAll`: every waiter is woken, and no lock is left.
use olane.Common.{
  ℕ, ◌≡◌, refl, sym, Bool, true, false, List, [], ◌∷◌, Text, Dict, text_eq, text_eq_iff, get, keys,
  any, or_default, Bool-cases, inl, inr, arith,
}
use olane.Node.LockManager.{Locks, is_locked, release, release_all, clear_all}
use olane.Node.LockManager.Steps.{Resolved}
use olane.Node.LockManager.Invariant.{
  Armed, Armed-release_other, Resolved-release, Resolved-release_old,
}

release_all_old :
    (names : List Text) (s : Locks) (q : ℕ)
    → Resolved q s.resolved
    → Resolved q (release_all names s).resolved
unfolding release_all
release_all_old [] s q h = h
release_all_old (n ∷ names) s q h =
    release_all_old names (release n s) q (Resolved-release_old n s q h)

release_all-Resolved :
    (names : List Text) (s : Locks) (name : Text) (p : ℕ)
    → Armed name s p
    → any (λ n. text_eq n name) names ≡ true
    → Resolved p (release_all names s).resolved
unfolding release_all
release_all-Resolved [] s name p a h = absurd (cc)
release_all-Resolved (n ∷ names) s name p a h = elim (Bool-cases (text_eq n name)) [
  | inl e ↦
      let same : name ≡ n = sym ((text_eq_iff n name).0 e) in
      release_all_old names (release n s) p (Resolved-release n s p (rw same at a))
  | inr e ↦
      release_all-Resolved names (release n s) name p (Armed-release_other name n s p e a)
        (rw e at h)
]

listed :
    (name : Text) (m : Dict Bool)
    → or_default (get name m) false ≡ true
    → any (λ n. text_eq n name) (keys m) ≡ true
unfolding get
listed name [] h = h
listed name ((j, b) ∷ m) h = ground (arith, listed name m)

-- Clearing resolves the promise of every lock that is held, so whoever waits for it is woken, and
-- afterwards no name is locked.
pub clear_all_wakes :
    (s : Locks) (name : Text) (p : ℕ)
    → Armed name s p
    → Resolved p (clear_all s).resolved × (is_locked name (clear_all s) ≡ false)
unfolding clear_all is_locked get
clear_all_wakes s name p a = (
  release_all-Resolved (keys s.lock_states) s name p a
      (listed name s.lock_states (unfold is_locked in a.held)),
  refl,
)
