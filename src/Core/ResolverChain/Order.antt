-- ===== src/Core/ResolverChain/Order.antt =====
-- What a resolver's place in the chain means.
use olane.Common.{
  ◌≡◌, refl, sym, ◌∙◌, Bool, true, false, ◌||◌, List, [], ◌∷◌, ◌++◌, Option, Text, any, Result, ok,
  err, ◌>>=◌, arith,
}
use olane.Core.Address.{Address, type_eq}
use olane.Core.ResolverChain.{
  Route, Resolver, add_resolver, supports_address, apply, resolve_from, resolve,
}

bind_assoc :
    {A B C : Type 0} (m : Result Text A) (f : A → Result Text B) (g : B → Result Text C)
    → ((m >>= f) >>= g) ≡ (m >>= λ a. f a >>= g)
bind_assoc (err e) f g = refl
bind_assoc (ok a) f g = refl

bind-ok : {A : Type 0} (m : Result Text A) → (m >>= ok) ≡ m
bind-ok (err e) = refl
bind-ok (ok a) = refl

bind_ext :
    {A B : Type 0} (m : Result Text A) (f g : A → Result Text B)
    → ((a : A) → f a ≡ g a)
    → (m >>= f) ≡ (m >>= g)
bind_ext (err e) f g h = refl
bind_ext (ok a) f g h = h a

any-append :
    {A : Type 0} (p : A → Bool) (xs ys : List A) → any p (xs ++ ys) ≡ (any p xs || any p ys)
any-append p [] ys = refl
any-append p (x ∷ xs) ys = ground (arith, any-append p xs ys)

or_comm : (a b : Bool) → (a || b) ≡ (b || a)
or_comm a b = ground arith

module _ {R : Type 0} where
  resolve_from-append :
      (xs ys : List (Resolver R)) (route : Route R)
      → resolve_from (xs ++ ys) route ≡ (resolve_from xs route >>= resolve_from ys)
  unfolding resolve_from
  resolve_from-append [] ys route = refl
  resolve_from-append (x ∷ xs) ys route =
      bind_ext (apply x route) (resolve_from (xs ++ ys))
        (λ r. resolve_from xs r >>= resolve_from ys) (λ r. resolve_from-append xs ys r)
      ∙ sym (bind_assoc (apply x route) (resolve_from xs) (resolve_from ys))

  resolve_from-one :
      (r : Resolver R) (route : Route R) → resolve_from (r ∷ []) route ≡ apply r route
  unfolding resolve_from
  resolve_from-one r route =
      bind_ext (apply r route) (resolve_from []) ok (λ x. refl) ∙ bind-ok (apply r route)

  -- A resolver that is added at the end works on the route that the others came to; one with priority
  -- works on the address itself, before the others; and the chain then supports what it supported and
  -- what the new resolver does.
  pub add_resolver_lem :
      (r : Resolver R) (chain : List (Resolver R)) (a : Address) (request : Option R) (b : Bool)
      → (resolve (add_resolver r false chain) a request ≡ (resolve chain a request >>= apply r))
        × (resolve (add_resolver r true chain) a request
            ≡ (resolve (r ∷ []) a request >>= resolve_from chain))
        × (supports_address a (add_resolver r b chain)
            ≡ (supports_address a (r ∷ []) || supports_address a chain))
  unfolding add_resolver resolve supports_address resolve_from
  add_resolver_lem r chain a request b =
      let route : Route R = record {
        next_hop_address = a;
        target_address = a;
        request_override = request;
      } in
      (
        resolve_from-append chain (r ∷ []) route
            ∙ bind_ext (resolve_from chain route) (resolve_from (r ∷ [])) (apply r)
                (resolve_from-one r),
        resolve_from-append (r ∷ []) chain route,
        supported b,
      )
    where
      supported :
          (c : Bool)
          → supports_address a (add_resolver r c chain)
            ≡ (supports_address a (r ∷ []) || supports_address a chain)
      supported true = ground arith
      supported false =
          let supports : Resolver R → Bool =
            λ x. any (λ t. any (λ w. type_eq w t.type) x.transport_types) a.transports in
          any-append supports chain (r ∷ []) ∙ or_comm (any supports chain) (any supports (r ∷ []))
