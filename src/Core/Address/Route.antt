-- ===== src/Core/Address/Route.antt =====
-- The whole route: `next` applied again and again, as each node on the way does.
use olane.Common.{
  ℕ, zero, suc, ◌≡◌, refl, sym, ap, ◌∙◌, ◌≢◌, false, not, List, [], ◌∷◌, ◌++◌, append_assoc,
  append-nil, Text, codes, starts_with-append, starts_with, strip_prefix, none, arith, Lacks, All,
  length, inr,
}
use olane.Core.Address.{Address, address, leader_value, proto, is_static, next}
use olane.Core.Address.Hop.{IsSegment, join, next_segment-join, next_segment_o, next_below}

-- The address that lies below the leader by these segments.
abbrev pub below : List Text → Text
below ss = leader_value ++ join ss

-- The address that a message has reached after `n` hops.
unfoldable pub hops : ℕ → Address → Address → Address
hops zero a target = a
hops (suc n) a target = hops n (next a target) target

join-append : (xs ys : List Text) → join (xs ++ ys) ≡ join xs ++ join ys
unfolding join
join-append [] ys = refl
join-append (x ∷ xs) ys =
    ap (λ t. b'/' ∷ t)
      (ap (λ t. x ++ t) (join-append xs ys) ∙ sym (append_assoc x (join xs) (join ys)))

pub below-append : (xs ys : List Text) → below (xs ++ ys) ≡ below xs ++ join ys
below-append xs ys =
    ap (λ t. leader_value ++ t) (join-append xs ys)
    ∙ sym (append_assoc leader_value (join xs) (join ys))

is_static-below :
    (target : Address) (ss : List Text) → target.value ≡ below ss → is_static target ≡ false
unfolding is_static
is_static-below target ss e = rw e (ap not (starts_with-append leader_value (join ss)))

-- On the way down from the leader, the hop is one segment further on the target's path, if no segment
-- from there on is empty, has a slash or is the single letter o.
pub next-below :
    (xs : List Text) (s : Text) (ys : List Text) (a target : Address)
    → IsSegment s
    → All IsSegment ys
    → a.value ≡ below xs
    → target.value ≡ below (xs ++ s ∷ ys)
    → next a target ≡ address (below (xs ++ s ∷ []))
unfolding join
next-below xs s ys a target p h e t =
    next_below a target (s ++ join ys) (codes "leader" ++ join xs, e)
      (t ∙ below-append xs (s ∷ ys) ∙ ap (λ v. v ++ (b'/' ∷ (s ++ join ys))) (sym e)) (nonempty s p)
      (inr (is_static-below target (xs ++ s ∷ ys) t))
    ∙ ap address (
        ap (λ v. a.value ++ (b'/' ∷ v)) (next_segment-join s ys p h ∙ sym (append-nil s))
        ∙ ap (λ v. v ++ join (s ∷ [])) e
        ∙ sym (below-append xs (s ∷ [])))
  where
    nonempty : (u : Text) → IsSegment u → u ++ join ys ≢ []
    nonempty [] q = absurd (q.nonempty refl)
    nonempty (c ∷ u) q = λ z. cc

-- From an ancestor of the target, the message is at the target after one hop for each segment
-- between them, if none of these is empty, has a slash or is the single letter o.
pub hops-below :
    (ys xs : List Text) (a target : Address)
    → All IsSegment ys
    → a.value ≡ below xs
    → target.value ≡ below (xs ++ ys)
    → (hops (length ys) a target).value ≡ target.value
unfolding hops
hops-below [] xs a target h e t = e ∙ ap below (sym (append-nil xs)) ∙ sym t
hops-below (s ∷ ys) xs a target (p, h) e t =
    let step = next-below xs s ys a target p h e t in
    hops-below ys (xs ++ s ∷ []) (next a target) target h (ap (λ b. b.value) step)
      (t ∙ ap below (sym (append_assoc xs (s ∷ []) ys)))

strip_prefix-both : (p u v : Text) → strip_prefix (p ++ u) (p ++ v) ≡ strip_prefix u v
unfolding strip_prefix
strip_prefix-both [] u v = refl
strip_prefix-both (c ∷ p) u v = ground (arith, strip_prefix-both p u v)

-- What goes on with another unit than a slash is no beginning of what goes on with a slash.
not_before_slash :
    (p t r : Text) → t ≢ [] → Lacks b'/' t → starts_with (p ++ t) (p ++ (b'/' ∷ r)) ≡ false
unfolding starts_with strip_prefix
not_before_slash p [] r n l = absurd (n refl)
not_before_slash p (c ∷ t) r n (q, l) =
    let none_there : strip_prefix (c ∷ t) (b'/' ∷ r) ≡ none = ground arith in
    let same : strip_prefix (p ++ c ∷ t) (p ++ (b'/' ∷ r)) ≡ none =
      strip_prefix-both p (c ∷ t) (b'/' ∷ r) ∙ none_there in
    rw (same, starts_with) refl

-- Where the second segment below `xs` is the single letter o, with a segment on either side of it, the
-- hop is named by these two run together: neither the target nor a node above it has that name.
pub next-below_o :
    (xs : List Text) (s t : Text) (ys : List Text) (a target : Address)
    → s ≢ []
    → t ≢ []
    → Lacks b'/' s
    → Lacks b'/' t
    → a.value ≡ below xs
    → target.value ≡ below (xs ++ s ∷ codes "o" ∷ t ∷ ys)
    → (next a target ≡ address (below (xs ++ (s ++ t) ∷ [])))
      × (starts_with (next a target).value target.value ≡ false)
unfolding join
next-below_o xs s t ys a target n m p q e h =
    (hop, ap (λ b. starts_with b.value target.value) hop ∙ off_path)
  where
    nonempty : (u : Text) → u ≢ [] → u ++ (proto ++ (t ++ join ys)) ≢ []
    nonempty [] k = λ z. cc
    nonempty (c ∷ u) k = λ z. cc

    hop : next a target ≡ address (below (xs ++ (s ++ t) ∷ []))
    hop =
        let rest = s ++ (proto ++ (t ++ join ys)) in
        next_below a target rest (codes "leader" ++ join xs, e)
          (h ∙ below-append xs (s ∷ codes "o" ∷ t ∷ ys) ∙ ap (λ v. v ++ (b'/' ∷ rest)) (sym e))
          (nonempty s n) (inr (is_static-below target (xs ++ s ∷ codes "o" ∷ t ∷ ys) h))
        ∙ ap address (
            ap (λ v. a.value ++ (b'/' ∷ v)) (next_segment_o s t ys p q ∙ sym (append-nil (s ++ t)))
            ∙ ap (λ v. v ++ join ((s ++ t) ∷ [])) e
            ∙ sym (below-append xs ((s ++ t) ∷ [])))

    -- Both names go on differently behind `xs` and `s`.
    off_path : starts_with (below (xs ++ (s ++ t) ∷ [])) target.value ≡ false
    off_path =
        let front = below xs ++ (b'/' ∷ s) in
        let there : below (xs ++ (s ++ t) ∷ []) ≡ front ++ t =
          below-append xs ((s ++ t) ∷ [])
          ∙ ap (λ v. below xs ++ (b'/' ∷ v)) (append-nil (s ++ t))
          ∙ sym (append_assoc (below xs) (b'/' ∷ s) t) in
        let target_there : target.value ≡ front ++ (b'/' ∷ (b'o' ∷ join (t ∷ ys))) =
          h
          ∙ below-append xs (s ∷ codes "o" ∷ t ∷ ys)
          ∙ sym (append_assoc (below xs) (b'/' ∷ s) (b'/' ∷ (b'o' ∷ join (t ∷ ys)))) in
        rw (there, target_there) (not_before_slash front t (b'o' ∷ join (t ∷ ys)) m q)
