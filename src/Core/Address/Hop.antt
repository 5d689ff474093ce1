-- ===== src/Core/Address/Hop.antt =====
-- One hop: where `next` goes from an address on the way to a target.
use olane.Common.{
  ℕ, ◌<◌, ◌≡◌, refl, sym, ap, ◌∙◌, ◌≢◌, true, false, List, [], ◌∷◌, ◌++◌, append_assoc, none, Text,
  codes, text_eq, text_eq_refl, text_eq-false, text_eq-length, strip_prefix, strip_prefix-append,
  replace, replace_at_start, replace_skip, split_head-split, Lacks, Lacks-append, StopsAt, All,
  length, length-append, text_eq_iff, replace_short, ◌⊎◌, arith,
}
use olane.Core.Address.{
  Address, address, leader, leader_value, scheme, proto, protocol, is_static, equals, next_segment,
  next,
}

-- A path segment that `next` reads as one: not empty, no slash, and not the single letter o.
pub record IsSegment (s : Text) : Type 0 where
  pub nonempty : s ≢ []
  pub no_slash : Lacks b'/' s
  pub not_o : s ≢ codes "o"

-- `/s₁/s₂/…`.
unfoldable pub join : List Text → Text
join [] = []
join (s ∷ ss) = b'/' ∷ (s ++ join ss)

-- The address that has these segments below the scheme-qualified text `base`.
abbrev pub under : Text → List Text → Text
under base ss = base ++ join ss

strip_proto-ne : (c : ℕ) (s : Text) → c ≢ b'/' → strip_prefix proto (c ∷ s) ≡ none
unfolding strip_prefix
strip_proto-ne c s h = ground arith

-- A slash in front of a segment does not open `/o/`.
strip_proto-segment :
    (s t : Text)
    → s ≢ []
    → s ≢ codes "o"
    → Lacks b'/' s
    → strip_prefix proto (b'/' ∷ (s ++ t)) ≡ none
unfolding strip_prefix
strip_proto-segment [] t n o l = absurd (n refl)
strip_proto-segment (c ∷ []) [] n o (p, _) = ground arith
strip_proto-segment (c ∷ []) (d ∷ t) n o (p, _) =
    let not_o : c ≢ b'o' = λ e. o (ap (λ k. k ∷ []) e) in ground arith
strip_proto-segment (c ∷ d ∷ s) t n o (p, (q, l)) = ground arith

replace-proto-Lacks :
    (s t : Text) → Lacks b'/' s → replace proto [] t ≡ t → replace proto [] (s ++ t) ≡ s ++ t
replace-proto-Lacks [] t l h = h
replace-proto-Lacks (c ∷ s) t (p, l) h =
    replace_skip proto [] (s ++ t) c (strip_proto-ne c (s ++ t) p)
    ∙ ap (◌∷◌ c) (replace-proto-Lacks s t l h)

replace-proto-join : (ss : List Text) → All IsSegment ss → replace proto [] (join ss) ≡ join ss
unfolding join
replace-proto-join [] h = replace_short proto [] [] (omega arith)
replace-proto-join (s ∷ ss) (p, h) =
    replace_skip proto [] (s ++ join ss) b'/'
      (strip_proto-segment s (join ss) p.nonempty p.not_o p.no_slash)
    ∙ ap (◌∷◌ b'/') (replace-proto-Lacks s (join ss) p.no_slash (replace-proto-join ss h))

pub StopsAt-join : (ss : List Text) → StopsAt b'/' (join ss)
unfolding join
StopsAt-join [] = tt
StopsAt-join (s ∷ ss) = refl

-- The first segment of what remains of the path.
pub next_segment-join :
    (s : Text) (ss : List Text) → IsSegment s → All IsSegment ss → next_segment (s ++ join ss) ≡ s
unfolding next_segment
next_segment-join s ss p h =
    rw (replace-proto-Lacks s (join ss) p.no_slash (replace-proto-join ss h))
      (split_head-split b'/' s (join ss) p.no_slash (StopsAt-join ss))

replace-proto_first : (s r : Text) → Lacks b'/' s → replace proto [] (s ++ (proto ++ r)) ≡ s ++ r
replace-proto_first [] r l = replace_at_start proto [] (proto ++ r) r (strip_prefix-append proto r)
replace-proto_first (c ∷ s) r (p, l) =
    replace_skip proto [] (s ++ (proto ++ r)) c (strip_proto-ne c (s ++ (proto ++ r)) p)
    ∙ ap (◌∷◌ c) (replace-proto_first s r l)

-- A segment `o` goes missing together with its slashes.
pub next_segment_o :
    (s t : Text) (ys : List Text)
    → Lacks b'/' s
    → Lacks b'/' t
    → next_segment (s ++ (proto ++ (t ++ join ys))) ≡ s ++ t
unfolding next_segment
next_segment_o s t ys p q =
    rw (replace-proto_first s (t ++ join ys) p, ← append_assoc s t (join ys))
      (split_head-split b'/' (s ++ t) (join ys) (Lacks-append b'/' s t p q) (StopsAt-join ys))

-- The address begins with `o://`.
abbrev pub HasScheme : Text → Type 0
HasScheme v = (p : Text) × (v ≡ scheme ++ p)

protocol_of_HasScheme : (a : Address) (p : Text) → a.value ≡ scheme ++ p → protocol a ≡ proto ++ p
unfolding protocol
protocol_of_HasScheme a p e =
    rw e (replace_at_start scheme proto (scheme ++ p) p (strip_prefix-append scheme p))

-- What `next` finds behind its own path in the target's.
remaining_below :
    (a target : Address) (r : Text)
    → HasScheme a.value
    → target.value ≡ a.value ++ (b'/' ∷ r)
    → (replace (protocol a ++ codes "/") [] (protocol target) ≡ r)
      × (length r < length (protocol target))
remaining_below a target r (p, e) t =
    let from : protocol a ≡ proto ++ p = protocol_of_HasScheme a p e in
    let to : protocol target ≡ proto ++ (p ++ (b'/' ∷ r)) =
      protocol_of_HasScheme target (p ++ (b'/' ∷ r))
        (rw (t, e) (append_assoc scheme p (b'/' ∷ r))) in
    let whole : proto ++ (p ++ (b'/' ∷ r)) ≡ ((proto ++ p) ++ codes "/") ++ r =
      ap (λ t. proto ++ t) (sym (append_assoc p (codes "/") r)) in
    (
      rw (from, to, whole)
          (replace_at_start ((proto ++ p) ++ codes "/") [] (((proto ++ p) ++ codes "/") ++ r) r
            (strip_prefix-append ((proto ++ p) ++ codes "/") r)),
      rw to (omega (arith, length-append {0} p (b'/' ∷ r))),
    )

-- Below `a`, and when `a` is the leader or the target lies under it, the hop is the child of `a`
-- that the next segment names.
pub next_below :
    (a target : Address) (r : Text)
    → HasScheme a.value
    → target.value ≡ a.value ++ (b'/' ∷ r)
    → r ≢ []
    → (equals a leader ≡ true) ⊎ (is_static target ≡ false)
    → next a target ≡ address (a.value ++ (b'/' ∷ next_segment r))
unfolding next
next_below a target r s t n g =
    let (found, short) = remaining_below a target r s t in
    let some_left : text_eq r [] ≡ false = text_eq-false r [] n in
    let other : text_eq r (protocol target) ≡ false =
      text_eq-length r (protocol target) (omega arith) in
    rw (found, some_left, other) (ground arith)

-- At the target, `next` stays.
pub next_self : (a target : Address) → a.value ≡ target.value → next a target ≡ a
unfolding next protocol
next_self a target e =
    let same : protocol a ≡ protocol target = ap (replace scheme proto) e in
    let longer : length (protocol target) < length (protocol a ++ codes "/") =
      rw same (omega (arith, length-append {0} (protocol target) (codes "/"))) in
    rw (replace_short (protocol a ++ codes "/") [] (protocol target) longer)
      (ground (arith, text_eq_refl (protocol target), text_eq_iff a.value target.value))

-- Where the path of `a` does not occur in the target's, the hop is the leader.
pub next_off_branch :
    (a target : Address)
    → replace (protocol a ++ codes "/") [] (protocol target) ≡ protocol target
    → protocol target ≢ []
    → a.value ≢ target.value
    → (next a target).value ≡ leader_value
unfolding next equals
next_off_branch a target absent n d = rw absent (
    ground (
      arith,
      text_eq_refl (protocol target),
      text_eq_iff (protocol target) [],
      text_eq_iff a.value target.value,
      text_eq_iff a.value leader_value,
    ))
