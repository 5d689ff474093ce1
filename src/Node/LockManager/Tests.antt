-- ===== src/Node/LockManager/Tests.antt =====
-- Witnesses and a run of the lock manager: call 0 gets the lock, call 1 waits and is woken.
use olane.Common.{ℕ, ◌≡◌, refl, ◌⊎◌, inl, Text, codes, text_eq, get, set, delete}
use olane.Node.LockManager.{
  is_locked, take_lock, acquire, resolve_waiters, release, release_all, clear_all, get_stats,
}
use olane.Node.LockManager.Steps.{
  Config, waiting, holding, attempt, finish, Resolved, Reach, here, more, call, resume, leave,
}
use olane.Node.LockManager.Invariant.{Armed, start}
use olane.Node.LockManager.Exclusion.{mutual_exclusion, no_lost_wakeup}

run : Unit {0}
unfolding text_eq get set delete is_locked take_lock acquire resolve_waiters release release_all
    clear_all get_stats
run = tt

abbrev name : Text
name = codes "connect"

abbrev held : Config
held = attempt 0 name start

abbrev contended : Config
contended = attempt 1 name held

Reach-contended : Reach start contended
unfolding run
Reach-contended = more (more here (call 0 name refl)) (call 1 name refl)

abbrev handed_over : Config
handed_over = attempt 1 name (finish 0 name contended)

Reach-handed_over : Reach start handed_over
unfolding run
Reach-handed_over =
    more (more Reach-contended (leave 0 name refl)) (resume 1 name 0 refl (inl refl))

second_holds : handed_over.phase 1 ≡ holding name
unfolding run
second_holds = refl

stats : (get_stats contended.manager).active_locks ≡ 1
unfolding run
stats = refl

mutual_exclusion_example : ◌≡◌ {A = ℕ} 1 1
mutual_exclusion_example =
    mutual_exclusion handed_over 1 1 name Reach-handed_over second_holds second_holds

waits : contended.phase 1 ≡ waiting name 0
unfolding run
waits = refl

no_lost_wakeup_example :
    Resolved 0 contended.manager.resolved
    ⊎ ((u : ℕ) × (contended.phase u ≡ holding name)
        × Resolved 0 (finish u name contended).manager.resolved)
no_lost_wakeup_example = no_lost_wakeup contended 1 name 0 Reach-contended waits

contended-Armed : Armed name contended.manager 0
unfolding run
contended-Armed = record { held = refl; promise = refl; resolver = refl }
