-- ===== src/Registry/MetricsStore/Bounds.antt =====
-- The memory that the store takes for each node, and what is read back.
use olane.Common.{
  ℕ, ◌<◌, ◌≤◌, ◌≡◌, refl, true, false, List, [], ◌∷◌, ◌++◌, some, Text, Dict, text_eq, get, set,
  get-set, get-set_self, keep_if, All, length, length-append, length-keep_if-le, last?, last?-snoc,
  ltb, or_default, Bool-cases, inl, inr, arith,
}
use olane.Registry.MetricsStore.{
  Metrics, MetricEntry, Store, max_entries_per_node, make_entry, get_all_metrics, push_bounded,
  store_metrics, get_latest_metrics, is_recent, cleanup_from, cleanup,
}

module _ {M : Type 0} where
  -- No node has more entries than the limit.
  abbrev pub IsBounded : Store M → Type 0
  IsBounded s = All (λ a. length a.1 ≤ max_entries_per_node) s.node_metrics

  push_bounded-le :
      (e : MetricEntry M) (es : List (MetricEntry M))
      → length es ≤ max_entries_per_node
      → length (push_bounded e es) ≤ max_entries_per_node
  unfolding push_bounded
  push_bounded-le e [] h = omega arith
  push_bounded-le e (d ∷ es) h = ground (arith, length-append es (e ∷ []))

  get-le :
      (address : Text) (m : Dict (List (MetricEntry M)))
      → All (λ a. length a.1 ≤ max_entries_per_node) m
      → length (or_default (get address m) []) ≤ max_entries_per_node
  unfolding get
  get-le address [] h = omega arith
  get-le address ((j, es) ∷ m) (p, h) = ground (arith, get-le address m h)

  set-le :
      (address : Text) (es : List (MetricEntry M)) (m : Dict (List (MetricEntry M)))
      → length es ≤ max_entries_per_node
      → All (λ a. length a.1 ≤ max_entries_per_node) m
      → All (λ a. length a.1 ≤ max_entries_per_node) (set address es m)
  unfolding set
  set-le address es [] p h = (p, tt)
  set-le address es ((j, ds) ∷ m) p (q, h) = elim (Bool-cases (text_eq j address)) [
    | inl e ↦ rw e (p, h)
    | inr e ↦ rw e (q, set-le address es m p h)
  ]

  -- If every node has at most as many entries as the limit, so it has after an entry was stored.
  pub store_metrics-IsBounded :
      (now : ℕ) (address : Text) (m : Metrics M) (s : Store M)
      → IsBounded s
      → IsBounded (store_metrics now address m s)
  unfolding store_metrics get_all_metrics
  store_metrics-IsBounded now address m s h =
      set-le address (push_bounded (make_entry now m) (or_default (get address s.node_metrics) []))
        s.node_metrics
        (push_bounded-le (make_entry now m) (or_default (get address s.node_metrics) [])
          (get-le address s.node_metrics h))
        h

  push_bounded-last :
      (e : MetricEntry M) (es : List (MetricEntry M)) → last? (push_bounded e es) ≡ some e
  unfolding push_bounded
  push_bounded-last e [] = refl
  push_bounded-last e (d ∷ es) =
      elim (Bool-cases (ltb max_entries_per_node (length ((d ∷ es) ++ e ∷ [])))) [
        | inl h ↦ rw h (last?-snoc es e)
        | inr h ↦ rw h (last?-snoc (d ∷ es) e)
      ]

  -- What was stored last for a node is its latest entry, and the series of every other node is as
  -- it was.
  pub get_latest-store_metrics :
      (now : ℕ) (address other : Text) (m : Metrics M) (s : Store M)
      → (get_latest_metrics address (store_metrics now address m s) ≡ some (make_entry now m))
        × (text_eq address other ≡ false
            → get_all_metrics other (store_metrics now address m s) ≡ get_all_metrics other s)
  unfolding get_latest_metrics get_all_metrics store_metrics
  get_latest-store_metrics now address other m s = (
    rw (get-set_self address _ s.node_metrics)
        (push_bounded-last (make_entry now m) (or_default (get address s.node_metrics) [])),
    λ d. rw (get-set address other _ s.node_metrics, d),
  )

  -- A series that was cleaned: not empty, within the limit, and every entry recent.
  abbrev pub IsClean : ℕ → ℕ → List (MetricEntry M) → Type 0
  IsClean now older es =
      (0 < length es)
      × (length es ≤ max_entries_per_node)
      × All (λ e. is_recent now older e ≡ true) es

  All-keep_if_self :
      (now older : ℕ) (es : List (MetricEntry M))
      → All (λ e. is_recent now older e ≡ true) (keep_if (is_recent now older) es)
  All-keep_if_self now older [] = tt
  All-keep_if_self now older (e ∷ es) = elim (Bool-cases (is_recent now older e)) [
    | inl h ↦ rw h (h, All-keep_if_self now older es)
    | inr h ↦ rw h (All-keep_if_self now older es)
  ]

  cleanup_from-IsClean :
      (now older : ℕ) (m : Dict (List (MetricEntry M)))
      → All (λ a. length a.1 ≤ max_entries_per_node) m
      → All (λ a. IsClean now older a.1) (cleanup_from now older m)
  unfolding cleanup_from
  cleanup_from-IsClean now older [] h = tt
  cleanup_from-IsClean now older ((address, es) ∷ m) (p, h) =
      keep (keep_if (is_recent now older) es) (All-keep_if_self now older es)
        (length-keep_if-le (is_recent now older) es) (cleanup_from-IsClean now older m h)
    where
      keep :
          (kept : List (MetricEntry M))
          → All (λ e. is_recent now older e ≡ true) kept
          → length kept ≤ length es
          → All (λ a. IsClean now older a.1) (cleanup_from now older m)
          → All
              (λ a. IsClean now older a.1)
              (elim kept [
                | [] ↦ cleanup_from now older m
                | e ∷ more ↦ (address, e ∷ more) ∷ cleanup_from now older m
              ])
      keep [] a le rest = rest
      keep (e ∷ more) a le rest = ((omega arith, omega arith, a), rest)

  -- After a clean-up each node that is left has entries, all of them recent and within the limit.
  pub cleanup-IsClean :
      (now older : ℕ) (s : Store M)
      → IsBounded s
      → All (λ a. IsClean now older a.1) (cleanup now older s).node_metrics
  unfolding cleanup
  cleanup-IsClean now older s h = cleanup_from-IsClean now older s.node_metrics h
