-- ===== src/Core/Notifications/Teardown.antt =====
-- What `teardown` leaves behind.
use olane.Common.{
  ◌≡◌, refl, sym, ap, ◌∙◌, Bool, true, false, not, List, [], ◌∷◌, ◌++◌, none, Text, text_eq,
  text_eq_refl, Dict, get, values, any, All, keep_if, or_default, Bool-cases, inl, inr, ==_iff,
  arith,
}
use olane.Core.Notifications.{
  Subscription, State, empty, same_listener, off, concat, get_subscriptions, off_all, teardown,
}
use olane.Core.Notifications.Delivery.{
  Agrees, Call, calls, empty-Agrees, off-Agrees, calls-Agrees, listeners-off, keep_if_none,
}

abbrev forget : List Subscription → List Subscription → List Subscription
forget [] ys = ys
forget (x ∷ xs) ys = forget xs (keep_if (λ y. not (same_listener x y)) ys)

listeners-off_all :
    (xs : List Subscription) (s : State)
    → Agrees s
    → (off_all xs s).listeners ≡ forget xs s.listeners
unfolding off_all
listeners-off_all [] s h = refl
listeners-off_all (x ∷ xs) s h =
    listeners-off_all xs (off x s) (off-Agrees x s h) ∙ ap (forget xs) (listeners-off x s h)

abbrev silenced : List Subscription → Subscription → Bool
silenced xs y = any (λ x. same_listener x y) xs

forget_all : (xs ys : List Subscription) → forget xs ys ≡ keep_if (λ y. not (silenced xs y)) ys
forget_all [] ys = sym (keep_if_none (λ y. false) ys (any_false ys))
  where
    any_false : (zs : List Subscription) → any (λ y. false) zs ≡ false
    any_false [] = refl
    any_false (z ∷ zs) = any_false zs
forget_all (x ∷ xs) ys = forget_all xs (keep_if (λ y. not (same_listener x y)) ys) ∙ both ys
  where
    both :
        (zs : List Subscription)
        → keep_if (λ y. not (silenced xs y)) (keep_if (λ y. not (same_listener x y)) zs)
          ≡ keep_if (λ y. not (silenced (x ∷ xs) y)) zs
    both [] = refl
    both (z ∷ zs) = ground (arith, both zs)

module _ {A : Type 0} where
  keep_if-nothing :
      (q : A → Bool) (ys : List A) → All (λ y. q y ≡ true) ys → keep_if (λ y. not (q y)) ys ≡ []
  keep_if-nothing q [] h = refl
  keep_if-nothing q (y ∷ ys) (e, h) = rw e (keep_if-nothing q ys h)

any-append_left :
    (q : Subscription → Bool) (xs ys : List Subscription)
    → any q xs ≡ true
    → any q (xs ++ ys) ≡ true
any-append_left q [] ys h = absurd (let e = h in cc)
any-append_left q (x ∷ xs) ys h = ground (arith, any-append_left q xs ys)

any-append_right :
    (q : Subscription → Bool) (xs ys : List Subscription)
    → any q ys ≡ true
    → any q (xs ++ ys) ≡ true
any-append_right q [] ys h = h
any-append_right q (x ∷ xs) ys h = ground (arith, any-append_right q xs ys h)

any-values :
    (q : Subscription → Bool) (t : Text) (m : Dict (List Subscription))
    → any q (or_default (get t m) []) ≡ true
    → any q (concat (values m)) ≡ true
unfolding get
any-values q t [] h = h
any-values q t ((k, xs) ∷ m) h = elim (Bool-cases (text_eq k t)) [
  | inl e ↦ any-append_left q xs (concat (values m)) (ground arith)
  | inr e ↦ any-append_right q xs (concat (values m)) (any-values q t m (ground arith))
]

silenced-concat :
    (s : State) (y : Subscription)
    → Agrees s
    → silenced (keep_if (λ x. text_eq x.event_type y.event_type) s.listeners) y ≡ true
    → silenced (get_subscriptions none s) y ≡ true
unfolding get_subscriptions
silenced-concat s y h e =
    any-values (λ x. same_listener x y) y.event_type s.subscriptions
      (sym (ap (λ xs. silenced xs y) (h y.event_type)) ∙ e)

silenced-cons :
    (x y : Subscription) (xs : List Subscription)
    → silenced xs y ≡ true
    → silenced (x ∷ xs) y ≡ true
silenced-cons x y xs h = ground arith

silenced_self : (y : Subscription) (xs : List Subscription) → silenced (y ∷ xs) y ≡ true
silenced_self y xs = rw (text_eq_refl y.event_type, (==_iff y.id y.id).1 refl) refl

silenced_typed :
    (y : Subscription) (xs : List Subscription)
    → silenced xs y ≡ true
    → silenced (keep_if (λ x. text_eq x.event_type y.event_type) xs) y ≡ true
silenced_typed y [] h = h
silenced_typed y (x ∷ xs) h = ground (arith, silenced_typed y xs)

All-silenced :
    (xs zs : List Subscription)
    → ((y : Subscription) → silenced xs y ≡ true → silenced zs y ≡ true)
    → All (λ y. silenced zs y ≡ true) xs
All-silenced [] zs h = tt
All-silenced (x ∷ xs) zs h =
    (h x (silenced_self x xs), All-silenced xs zs (λ y e. h y (silenced-cons x y xs e)))

-- After any calls of `on` and `off`, `teardown` leaves no subscription and no listener.
pub teardown_lem : (cs : List Call) → teardown (calls cs empty) ≡ empty
unfolding teardown
teardown_lem cs =
    let s = calls cs empty in
    let h = calls-Agrees cs empty empty-Agrees in
    let xs = get_subscriptions none s in
    let heard_all =
      All-silenced s.listeners xs (λ y e. silenced-concat s y h (silenced_typed y s.listeners e)) in
    ap (λ l. record { subscriptions = []; listeners = l })
      (listeners-off_all xs s h
        ∙ (forget_all xs s.listeners ∙ keep_if-nothing (silenced xs) s.listeners heard_all))
