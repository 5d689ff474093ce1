-- ===== src/Registry/Memory/Search.antt =====
-- What a search of the registry gives.
use olane.Common.{
  ℕ, ◌≤◌, ◌≡◌, refl, sym, ap, ◌∙◌, Bool, true, false, ◌&&◌, ◌||◌, List, [], ◌∷◌, ◌++◌, Option, none,
  some, Text, text_eq, any, every, keep_if, All, if◌then◌else◌, or_default, leb, Bool-cases,
  Option-cases, inl, inr, Result, ok, err, >>=-eq-ok, arith,
}
use olane.Registry.Memory.{
  RegistrationParams, RegistryState, find_all, SearchParams, has_protocols, reading_undefined,
  with_protocols, given, time_of, insert_by_time, sort_by_time, search,
}

-- The latest first.
abbrev pub IsSorted : List RegistrationParams → Type 0
IsSorted [] = Unit
IsSorted (x ∷ xs) = All (λ y. time_of y ≤ time_of x) xs × IsSorted xs

-- The registrations that a request asks for.
abbrev wants_protocols : Option (List Text) → RegistrationParams → Bool
wants_protocols none r = false
wants_protocols (some ps) r = every (λ p. any (text_eq p) (or_default r.protocols [])) ps

abbrev pub wants : SearchParams → RegistrationParams → Bool
wants params r =
    wants_protocols params.protocols r
    || given params.address (text_eq r.address)
    || given params.static_address (text_eq r.static_address)

All-insert :
    (b : ℕ) (x : RegistrationParams) (ys : List RegistrationParams)
    → time_of x ≤ b
    → All (λ y. time_of y ≤ b) ys
    → All (λ y. time_of y ≤ b) (insert_by_time x ys)
unfolding insert_by_time
All-insert b x [] h a = (h, tt)
All-insert b x (y ∷ ys) h (p, a) = elim (Bool-cases (leb (time_of y) (time_of x))) [
  | inl e ↦ rw e (h, (p, a))
  | inr e ↦ rw e (p, All-insert b x ys h a)
]

All-weaken :
    (a b : ℕ) (ys : List RegistrationParams)
    → a ≤ b
    → All (λ y. time_of y ≤ a) ys
    → All (λ y. time_of y ≤ b) ys
All-weaken a b [] h t = tt
All-weaken a b (y ∷ ys) h (p, t) = (omega arith, All-weaken a b ys h t)

insert-IsSorted :
    (x : RegistrationParams) (ys : List RegistrationParams)
    → IsSorted ys
    → IsSorted (insert_by_time x ys)
unfolding insert_by_time
insert-IsSorted x [] s = (tt, tt)
insert-IsSorted x (y ∷ ys) (a, s) = elim (Bool-cases (leb (time_of y) (time_of x))) [
  | inl e ↦
      let le : time_of y ≤ time_of x = ground (arith, e) in
      rw e ((le, All-weaken (time_of y) (time_of x) ys le a), (a, s))
  | inr e ↦
      let le : time_of x ≤ time_of y = ground (arith, e) in
      rw e (All-insert (time_of y) x ys le a, insert-IsSorted x ys s)
]

sort-IsSorted : (xs : List RegistrationParams) → IsSorted (sort_by_time xs)
unfolding sort_by_time
sort-IsSorted [] = tt
sort-IsSorted (x ∷ xs) = insert-IsSorted x (sort_by_time xs) (sort-IsSorted xs)

ok-injective : {A : Type 0} (x y : A) → ◌≡◌ {A = Result Text A} (ok x) (ok y) → x ≡ y
ok-injective x y h = cc

has_protocols_lem :
    (ps : List Text) (node : RegistrationParams) (b : Bool)
    → has_protocols ps node ≡ ok b
    → b ≡ wants_protocols (some ps) node
unfolding has_protocols
has_protocols_lem [] node b h = sym (ok-injective true b h)
has_protocols_lem (p ∷ ps) node b h = elim (Option-cases node.protocols) [
  | inl e ↦
      let threw : has_protocols (p ∷ ps) node ≡ err reading_undefined =
        rw (e, has_protocols) refl in
      absurd (cc)
  | inr (own, e) ↦
      let told : has_protocols (p ∷ ps) node ≡ ok (every (λ l. any (text_eq l) own) (p ∷ ps)) =
        rw (e, has_protocols) refl in
      sym (ok-injective (every (λ l. any (text_eq l) own) (p ∷ ps)) b (sym told ∙ h))
      ∙ sym (ap (λ o. every (λ l. any (text_eq l) (or_default o [])) (p ∷ ps)) e)
]

module _ (q : RegistrationParams → Bool) where
  any-append : (xs ys : List RegistrationParams) → any q (xs ++ ys) ≡ (any q xs || any q ys)
  any-append [] ys = refl
  any-append (x ∷ xs) ys = ground (arith, any-append xs ys)

  any-insert :
      (x : RegistrationParams) (ys : List RegistrationParams)
      → any q (insert_by_time x ys) ≡ (q x || any q ys)
  unfolding insert_by_time
  any-insert x [] = refl
  any-insert x (y ∷ ys) = ground (arith, any-insert x ys)

  any-sort : (xs : List RegistrationParams) → any q (sort_by_time xs) ≡ any q xs
  unfolding sort_by_time
  any-sort [] = refl
  any-sort (x ∷ xs) = any-insert x (sort_by_time xs) ∙ ap (λ b. q x || b) (any-sort xs)

  any-keep_if :
      (p : RegistrationParams → Bool) (xs : List RegistrationParams)
      → any q (keep_if p xs) ≡ any (λ r. p r && q r) xs
  any-keep_if p [] = refl
  any-keep_if p (x ∷ xs) = ground (arith, any-keep_if p xs)

  any-or :
      (a b c : RegistrationParams → Bool) (xs : List RegistrationParams)
      → (any (λ r. a r && q r) xs || (any (λ r. b r && q r) xs || any (λ r. c r && q r) xs))
        ≡ any (λ r. (a r || b r || c r) && q r) xs
  any-or a b c [] = refl
  any-or a b c (x ∷ xs) = ground (arith, any-or a b c xs)

  any-none : (xs : List RegistrationParams) → any (λ r. false && q r) xs ≡ false
  any-none [] = refl
  any-none (x ∷ xs) = any-none xs

  any-with_protocols :
      (ps : List Text) (nodes found : List RegistrationParams)
      → with_protocols ps nodes ≡ ok found
      → any q found ≡ any (λ r. wants_protocols (some ps) r && q r) nodes
  unfolding with_protocols
  any-with_protocols ps [] found h = ap (any q) (sym (ok-injective [] found h))
  any-with_protocols ps (node ∷ nodes) found h =
      let (b, eb, more) = >>=-eq-ok (has_protocols ps node) _ h in
      let (rest, er, last) = >>=-eq-ok (with_protocols ps nodes) _ more in
      let kept = ok-injective (if b then node ∷ rest else rest) found last in
      ap (any q) (sym kept)
      ∙ (chosen b rest
          ∙ (ap (λ c. c && q node || any q rest) (has_protocols_lem ps node b eb)
              ∙ ap (λ c. wants_protocols (some ps) node && q node || c)
                  (any-with_protocols ps nodes rest er)))
    where
      chosen :
          (c : Bool) (rest : List RegistrationParams)
          → any q (if c then node ∷ rest else rest) ≡ (c && q node || any q rest)
      chosen true rest = refl
      chosen false rest = refl

-- A search that does not throw gives registrations the latest first, and a property holds of one of
-- them exactly if it holds of one that is registered and asked for: by its protocols, all of them, by
-- its address or by its static address.
pub search_lem :
    (params : SearchParams) (s : RegistryState) (out : List RegistrationParams)
    (q : RegistrationParams → Bool)
    → search params s ≡ ok out
    → IsSorted out × (any q out ≡ any (λ r. wants params r && q r) (find_all s))
unfolding search
search_lem params s out q h =
    let nodes = find_all s in
    let by_address = keep_if (λ r. given params.address (text_eq r.address)) nodes in
    let by_static = keep_if (λ r. given params.static_address (text_eq r.static_address)) nodes in
    let (found, e, last) = >>=-eq-ok _ _ h in
    let all = found ++ (by_address ++ by_static) in
    let sorted = ok-injective (sort_by_time all) out last in
    let first : any q found ≡ any (λ r. wants_protocols params.protocols r && q r) nodes =
      by_protocols params.protocols found e in
    (
      rw (sym sorted) (sort-IsSorted all),
      ap (any q) (sym sorted)
          ∙ (any-sort q all
              ∙ (any-append q found (by_address ++ by_static)
                  ∙ (rw
                      (
                        any-append q by_address by_static,
                        any-keep_if q (λ r. given params.address (text_eq r.address)) nodes,
                        any-keep_if q (λ r. given params.static_address (text_eq r.static_address))
                            nodes,
                        first,
                      )
                      (any-or q (wants_protocols params.protocols)
                        (λ r. given params.address (text_eq r.address))
                        (λ r. given params.static_address (text_eq r.static_address)) nodes)))),
    )
  where
    by_protocols :
        (ps : Option (List Text)) (found : List RegistrationParams)
        → elim ps as (λ x. Result Text (List RegistrationParams)) [
          | none ↦ ok []
          | some l ↦ with_protocols l (find_all s)
        ]
          ≡ ok found
        → any q found ≡ any (λ r. wants_protocols ps r && q r) (find_all s)
    by_protocols none found e =
        ap (any q) (sym (ok-injective [] found e)) ∙ sym (any-none q (find_all s))
    by_protocols (some l) found e = any-with_protocols q l (find_all s) found e
