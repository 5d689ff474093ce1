-- ===== src/Node/Reconnection/Backoff.antt =====
-- The pauses between the rounds.
use native.Mathlib.Nat.{pow-suc}
use olane.Common.{
  ℕ, zero, suc, ◌*◌, ◌^◌, min, ◌≡◌, refl, sym, ◌∙◌, Bool, false, List, [], ◌∷◌, ◌++◌, append_assoc,
  append-nil, length, All, arith,
}
use olane.Node.Reconnection.{State, still_waiting, wait_from}

-- The pauses of `n` rounds from the `k`-th on: they double from `base` and stop at `most`.
unfoldable pub pauses : ℕ → ℕ → ℕ → ℕ → List ℕ
pauses base most k zero = []
pauses base most k (suc n) = min (base * 2 ^ k) most ∷ pauses base most (suc k) n

doubled : (base k : ℕ) → base * 2 ^ k * 2 ≡ base * 2 ^ suc k
doubled base k = rw (pow-suc 2 k) (omega arith)

-- If no round succeeds, the wait has paused after each, for these times.
pub wait_from_slept {ℓ} :
    {R : Type ℓ} (attempt : R → State → State × Bool) (base most k delay : ℕ) (rounds : List R)
    (s : State)
    → ((r : R) (t : State) → (attempt r t).0.slept ≡ t.slept)
    → All (λ r. (t : State) → (attempt r t).1 ≡ false) rounds
    → min delay most ≡ min (base * 2 ^ k) most
    → ((wait_from attempt most delay rounds s).0.slept
        ≡ s.slept ++ pauses base most k (length rounds))
      × ((wait_from attempt most delay rounds s).1 ≡ still_waiting)
unfolding wait_from pauses
wait_from_slept attempt base most k delay [] s keeps fails e = (sym (append-nil s.slept), refl)
wait_from_slept attempt base most k delay (r ∷ rounds) s keeps (fails, more) e =
    let t = (attempt r s).0 in
    let next : min (min (delay * 2) most) most ≡ min (base * 2 ^ suc k) most =
      omega (arith, e, doubled base k) in
    let (slept, waiting) =
      wait_from_slept attempt base most (suc k) (min (delay * 2) most) rounds
        (record t { slept = t.slept ++ min delay most ∷ [] }) keeps more next in
    rw (fails s) (
      slept
          ∙ (append_assoc t.slept (min delay most ∷ []) (pauses base most (suc k) (length rounds))
              ∙ (rw (keeps r s, e) refl)),
      waiting,
    )
