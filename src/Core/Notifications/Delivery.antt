-- ===== src/Core/Notifications/Delivery.antt =====
-- Which subscriptions an event reaches.
use olane.Common.{
  ◌≡◌, refl, sym, ap, ◌∙◌, Bool, true, false, not, List, [], ◌∷◌, ◌++◌, append-nil, Text, text_eq,
  text_eq_iff, Dict, get, get-set, get-delete, any, keep_if, if◌then◌else◌, or_default, Bool-cases,
  Option-cases, inl, inr, arith,
}
use olane.Core.Notifications.Filters.{Event, Regex}
use olane.Core.Notifications.{
  Subscription, State, empty, subscribed, on, same_id, same_listener, put_back, off, passes, emit,
}

abbrev of_type : Text → Subscription → Bool
of_type t x = text_eq x.event_type t

-- The listeners of every type are the subscriptions of that type, in their order.
abbrev pub Agrees : State → Type 0
Agrees s = (t : Text) → keep_if (of_type t) s.listeners ≡ subscribed t s

pub empty-Agrees : Agrees empty
unfolding get
empty-Agrees t = refl

module _ {A : Type 0} where
  keep_if-append :
      (p : A → Bool) (xs ys : List A) → keep_if p (xs ++ ys) ≡ keep_if p xs ++ keep_if p ys
  keep_if-append p [] ys = refl
  keep_if-append p (x ∷ xs) ys = elim (Bool-cases (p x)) [
    | inl e ↦ rw e (ap (◌∷◌ x) (keep_if-append p xs ys))
    | inr e ↦ rw e (keep_if-append p xs ys)
  ]

  keep_if_comm :
      (p q : A → Bool) (xs : List A) → keep_if p (keep_if q xs) ≡ keep_if q (keep_if p xs)
  keep_if_comm p q [] = refl
  keep_if_comm p q (x ∷ xs) = ground (arith, keep_if_comm p q xs)

  pub keep_if_none :
      (p : A → Bool) (xs : List A) → any p xs ≡ false → keep_if (λ x. not (p x)) xs ≡ xs
  keep_if_none p [] h = refl
  keep_if_none p (x ∷ xs) h = ground (arith, keep_if_none p xs)

subscribed_text : (k t : Text) → text_eq k t ≡ true → k ≡ t
subscribed_text k t = (text_eq_iff k t).0

pub on-Agrees : (x : Subscription) (s : State) → Agrees s → Agrees (on x s)
unfolding on
on-Agrees x s h t = elim (Bool-cases (text_eq x.event_type t)) [
  | inl e ↦
      rw
        (
          keep_if-append (of_type t) s.listeners (x ∷ []),
          e,
          h t,
          get-set x.event_type t (subscribed x.event_type s ++ x ∷ []) s.subscriptions,
          e,
          subscribed_text x.event_type t e,
        )
        refl
  | inr e ↦
      rw
        (
          keep_if-append (of_type t) s.listeners (x ∷ []),
          e,
          h t,
          get-set x.event_type t (subscribed x.event_type s ++ x ∷ []) s.subscriptions,
          e,
        )
        (append-nil (subscribed t s))
]

-- Without the listener of `x`, those of its type are without its id, and those of another type stay.
kept_same :
    (x : Subscription) (t : Text) (ys : List Subscription)
    → x.event_type ≡ t
    → keep_if (λ y. not (same_listener x y)) (keep_if (of_type t) ys)
      ≡ keep_if (λ y. not (same_id x y)) (keep_if (of_type t) ys)
kept_same x t [] e = refl
kept_same x t (y ∷ ys) e =
    ground
      (arith, kept_same x t ys e, text_eq_iff y.event_type t, text_eq_iff x.event_type y.event_type)

kept_other :
    (x : Subscription) (t : Text) (ys : List Subscription)
    → text_eq x.event_type t ≡ false
    → keep_if (λ y. not (same_listener x y)) (keep_if (of_type t) ys) ≡ keep_if (of_type t) ys
kept_other x t [] e = refl
kept_other x t (y ∷ ys) e = ground (
  arith,
  kept_other x t ys e,
  text_eq_iff y.event_type t,
  text_eq_iff x.event_type t,
  text_eq_iff x.event_type y.event_type,
)

get-put_back :
    (k t : Text) (ys : List Subscription) (m : Dict (List Subscription))
    → or_default (get t (put_back k ys m)) []
      ≡ (if text_eq k t then ys else or_default (get t m) [])
get-put_back k t [] m = rw (get-delete k t m) (ground arith)
get-put_back k t (y ∷ ys) m = rw (get-set k t (y ∷ ys) m) (ground arith)

pub off-Agrees : (x : Subscription) (s : State) → Agrees s → Agrees (off x s)
unfolding off
off-Agrees x s h t = elim (Option-cases (get x.event_type s.subscriptions)) [
  | inl e ↦ rw e (h t)
  | inr (xs, e) ↦
      rw
        (
          e,
          keep_if_comm (of_type t) (λ y. not (same_listener x y)) s.listeners,
          get-put_back x.event_type t (keep_if (λ y. not (same_id x y)) xs) s.subscriptions,
        )
        (elim (Bool-cases (text_eq x.event_type t)) [
          | inl q ↦
              let all : keep_if (of_type t) s.listeners ≡ xs =
                h t
                ∙ ap (λ o. or_default o [])
                    (ap (λ k. get k s.subscriptions) (sym (subscribed_text x.event_type t q))
                      ∙ e) in
              rw (q, kept_same x t s.listeners (subscribed_text x.event_type t q), all) refl
          | inr q ↦ rw (q, kept_other x t s.listeners q) (h t)
        ])
]

pub data Call : Type 0 where
  listen unlisten : Subscription → Call

abbrev pub call : Call → State → State
call (listen x) s = on x s
call (unlisten x) s = off x s

abbrev pub calls : List Call → State → State
calls [] s = s
calls (c ∷ cs) s = calls cs (call c s)

-- What is heard: who listened and did not stop, in the order of listening.
abbrev pub heard : List Call → List Subscription → List Subscription
heard [] xs = xs
heard (listen x ∷ cs) xs = heard cs (xs ++ x ∷ [])
heard (unlisten x ∷ cs) xs = heard cs (keep_if (λ y. not (same_listener x y)) xs)

pub calls-Agrees : (cs : List Call) (s : State) → Agrees s → Agrees (calls cs s)
calls-Agrees [] s h = h
calls-Agrees (listen x ∷ cs) s h = calls-Agrees cs (on x s) (on-Agrees x s h)
calls-Agrees (unlisten x ∷ cs) s h = calls-Agrees cs (off x s) (off-Agrees x s h)

unheard :
    (x : Subscription) (ys : List Subscription)
    → keep_if (of_type x.event_type) ys ≡ []
    → keep_if (λ y. not (same_listener x y)) ys ≡ ys
unheard x [] h = refl
unheard x (y ∷ ys) h = ground (
  arith,
  unheard x ys,
  text_eq_iff x.event_type y.event_type,
  text_eq_iff y.event_type x.event_type,
)

pub listeners-off :
    (x : Subscription) (s : State)
    → Agrees s
    → (off x s).listeners ≡ keep_if (λ y. not (same_listener x y)) s.listeners
unfolding off
listeners-off x s h = elim (Option-cases (get x.event_type s.subscriptions)) [
  | inl e ↦ rw e (sym (unheard x s.listeners (h x.event_type ∙ ap (λ o. or_default o []) e)))
  | inr (xs, e) ↦ rw e refl
]

pub listeners-calls :
    (cs : List Call) (s : State) → Agrees s → (calls cs s).listeners ≡ heard cs s.listeners
unfolding on
listeners-calls [] s h = refl
listeners-calls (listen x ∷ cs) s h = listeners-calls cs (on x s) (on-Agrees x s h)
listeners-calls (unlisten x ∷ cs) s h =
    listeners-calls cs (off x s) (off-Agrees x s h) ∙ ap (heard cs) (listeners-off x s h)

-- After any calls of `on` and `off` an event is delivered to those, in the order in which they
-- subscribed, that subscribed to its type, did not unsubscribe since, and have no filter or one that
-- the event matches.
pub emit_lem :
    (regex : Regex) (e : Event) (cs : List Call)
    → emit regex e (calls cs empty)
      ≡ keep_if
          (λ x. passes regex e x.filter)
          (keep_if (λ x. text_eq x.event_type e.type) (heard cs []))
unfolding emit
emit_lem regex e cs = rw (listeners-calls cs empty empty-Agrees) refl
