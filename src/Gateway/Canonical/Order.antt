-- ===== src/Gateway/Canonical/Order.antt =====
-- The order of the keys: sorting forgets in which order two of them stood.
use olane.Common.{
  ◌≡◌, refl, sym, ap, ◌≢◌, true, false, List, [], ◌∷◌, Text, Bool-cases, inl, inr, arith, Result,
}
use olane.Gateway.Canonical.{Problem, Entry, text_le, insert}

text_le_total : (s t : Text) → text_le s t ≡ false → text_le t s ≡ true
unfolding text_le
text_le_total [] t h = absurd (cc)
text_le_total (c ∷ s) [] h = refl
text_le_total (c ∷ s) (d ∷ t) h = ground (arith, text_le_total s t)

text_le_antisym : (s t : Text) → text_le s t ≡ true → text_le t s ≡ true → s ≡ t
unfolding text_le
text_le_antisym [] [] h k = refl
text_le_antisym [] (d ∷ t) h k = absurd (cc)
text_le_antisym (c ∷ s) [] h k = absurd (cc)
text_le_antisym (c ∷ s) (d ∷ t) h k = ground (arith, text_le_antisym s t)

text_le_trans : (r s t : Text) → text_le r s ≡ true → text_le s t ≡ true → text_le r t ≡ true
unfolding text_le
text_le_trans [] s t h k = refl
text_le_trans (b ∷ r) [] t h k = absurd (cc)
text_le_trans (b ∷ r) (c ∷ s) [] h k = absurd (cc)
text_le_trans (b ∷ r) (c ∷ s) (d ∷ t) h k = ground (arith, text_le_trans r s t)

insert_front :
    (k j : Text) (v w : Result Problem Text) (es : List Entry)
    → text_le k j ≡ true
    → insert (k, v) ((j, w) ∷ es) ≡ (k, v) ∷ (j, w) ∷ es
unfolding insert
insert_front k j v w es e = rw e refl

insert_behind :
    (k j : Text) (v w : Result Problem Text) (es : List Entry)
    → text_le k j ≡ false
    → insert (k, v) ((j, w) ∷ es) ≡ (j, w) ∷ insert (k, v) es
unfolding insert
insert_behind k j v w es e = rw e refl

insert_two :
    (k j : Text) (v w : Result Problem Text)
    → text_le k j ≡ true
    → text_le j k ≡ false
    → insert (k, v) (insert (j, w) []) ≡ insert (j, w) (insert (k, v) [])
unfolding insert
insert_two k j v w p q = rw (p, q) refl

module _ (k j : Text) (v w : Result Problem Text) where
  -- The same with `k` before `j`.
  insert_ordered :
      (es : List Entry)
      → text_le k j ≡ true
      → text_le j k ≡ false
      → insert (k, v) (insert (j, w) es) ≡ insert (j, w) (insert (k, v) es)
  insert_ordered [] p q = insert_two k j v w p q
  insert_ordered ((i, u) ∷ es) p q = elim (Bool-cases (text_le j i)) [
    | inl e ↦
        let f = text_le_trans k j i p e in
        rw
          (
            insert_front j i w u es e,
            insert_front k i v u es f,
            insert_front k j v w ((i, u) ∷ es) p,
            insert_behind j k w v ((i, u) ∷ es) q,
            insert_front j i w u es e,
          )
          refl
    | inr e ↦ elim (Bool-cases (text_le k i)) [
      | inl f ↦
          rw
            (
              insert_behind j i w u es e,
              insert_front k i v u es f,
              insert_front k i v u (insert (j, w) es) f,
              insert_behind j k w v ((i, u) ∷ es) q,
              insert_behind j i w u es e,
            )
            refl
      | inr f ↦
          rw
            (
              insert_behind j i w u es e,
              insert_behind k i v u es f,
              insert_behind k i v u (insert (j, w) es) f,
              insert_behind j i w u (insert (k, v) es) e,
            )
            (ap (◌∷◌ (i, u)) (insert_ordered es p q))
    ]
  ]

pub insert_comm :
    (k j : Text) (v w : Result Problem Text) (es : List Entry)
    → k ≢ j
    → insert (k, v) (insert (j, w) es) ≡ insert (j, w) (insert (k, v) es)
insert_comm k j v w es n = elim (Bool-cases (text_le k j)) [
  | inl e ↦ elim (Bool-cases (text_le j k)) [
    | inl f ↦ absurd (n (text_le_antisym k j e f))
    | inr f ↦ insert_ordered k j v w es e f
  ]
  | inr e ↦ sym (insert_ordered j k w v es (text_le_total k j e) e)
]
