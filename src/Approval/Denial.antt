-- ===== src/Approval/Denial.antt =====
-- A refusal is final: nothing takes an action off the blacklist.
use olane.Common.{
  ◌≡◌, refl, ◌∙◌, Bool, true, false, ◌||◌, List, [], ◌∷◌, ◌++◌, Option, none, some, Text, text_eq,
  text_eq_refl, any, or_default, Bool-cases, Option-cases, inl, inr, ok, err, arith,
}
use olane.Approval.{
  Decision, approve, deny, always, never, State, denied_by_blacklist, listed, tool_method_of,
  needs_approval, parse_approval_response, lowered, save_preferences, add_to_whitelist,
  add_to_blacklist, Reply, remember, after_reply, request_approval, set_preference, set_mode,
  mode_of,
}

-- What a client of the tool can do.
pub data Call : Type 0 where
  ask : Reply → Text → Text → Call
  prefer : Text → Text → Call
  switch : Option Text → Text → Call

unfoldable pub call : Call → State → State
call (ask reply tool_address method) s = (request_approval reply tool_address method s).1
call (prefer tool_method preference) s = (set_preference tool_method preference s).1
call (switch problem text) s = (set_mode problem text s).1

unfoldable pub calls : List Call → State → State
calls [] s = s
calls (c ∷ cs) s = calls cs (call c s)

abbrev IsDenied : Text → State → Type 0
IsDenied t s = listed t s.preferences.blacklist ≡ true

any-append : (p : Text → Bool) (xs ys : List Text) → any p (xs ++ ys) ≡ (any p xs || any p ys)
any-append p [] ys = refl
any-append p (x ∷ xs) ys = ground (arith, any-append p xs ys)

add_to_whitelist-IsDenied :
    (w t : Text) (s : State) → IsDenied t s → IsDenied t (add_to_whitelist w s)
unfolding add_to_whitelist save_preferences
add_to_whitelist-IsDenied w t s h =
    elim (Bool-cases (any (text_eq w) (or_default s.preferences.whitelist []))) [
      | inl e ↦ rw e h
      | inr e ↦ rw e h
    ]

add_to_blacklist-IsDenied :
    (w t : Text) (s : State) → IsDenied t s → IsDenied t (add_to_blacklist w s)
unfolding add_to_blacklist save_preferences listed
add_to_blacklist-IsDenied w t s h =
    let old = or_default s.preferences.blacklist [] in
    elim (Bool-cases (any (text_eq w) old)) [
      | inl e ↦ rw e h
      | inr e ↦ rw e (any-append (text_eq t) old (w ∷ []) ∙ rw h refl)
    ]

add_to_blacklist-denies : (t : Text) (s : State) → IsDenied t (add_to_blacklist t s)
unfolding add_to_blacklist save_preferences listed
add_to_blacklist-denies t s =
    let old = or_default s.preferences.blacklist [] in
    elim (Bool-cases (any (text_eq t) old)) [
      | inl e ↦ rw e e
      | inr e ↦ rw e (any-append (text_eq t) old (t ∷ []) ∙ rw (e, text_eq_refl t) refl)
    ]

remember-IsDenied :
    (d : Decision) (w t : Text) (s : State) → IsDenied t s → IsDenied t (remember d w s)
unfolding remember
remember-IsDenied always w t s h = add_to_whitelist-IsDenied w t s h
remember-IsDenied never w t s h = add_to_blacklist-IsDenied w t s h
remember-IsDenied approve w t s h = h
remember-IsDenied deny w t s h = h

after_reply-IsDenied :
    (reply : Reply) (w t : Text) (s : State) → IsDenied t s → IsDenied t (after_reply reply w s).1
unfolding after_reply
after_reply-IsDenied (err e) w t s h = h
after_reply-IsDenied (ok answer) w t s h =
    remember-IsDenied (parse_approval_response (lowered answer)) w t s h

set_mode-IsDenied :
    (problem : Option Text) (text t : Text) (s : State)
    → IsDenied t s
    → IsDenied t (set_mode problem text s).1
unfolding set_mode
set_mode-IsDenied none text t s h = elim (Option-cases (mode_of text)) [
  | inl e ↦ rw (e, set_mode) h
  | inr (m, e) ↦ rw (e, set_mode) h
]
set_mode-IsDenied (some problem) text t s h = elim (Option-cases (mode_of text)) [
  | inl e ↦ rw (e, set_mode) h
  | inr (m, e) ↦ rw (e, set_mode) h
]

call-IsDenied : (c : Call) (t : Text) (s : State) → IsDenied t s → IsDenied t (call c s)
unfolding call request_approval set_preference
call-IsDenied (ask reply tool_address method) t s h =
    let w = tool_method_of tool_address method in ground (arith, after_reply-IsDenied reply w t s h)
call-IsDenied (prefer w preference) t s h =
    ground (arith, add_to_whitelist-IsDenied w t s h, add_to_blacklist-IsDenied w t s h)
call-IsDenied (switch problem text) t s h = set_mode-IsDenied problem text t s h

calls-IsDenied : (cs : List Call) (t : Text) (s : State) → IsDenied t s → IsDenied t (calls cs s)
unfolding calls
calls-IsDenied [] t s h = h
calls-IsDenied (c ∷ cs) t s h = calls-IsDenied cs t (call c s) (call-IsDenied c t s h)

-- An action on the blacklist is refused after any further calls, in whatever mode, even if it is on
-- the whitelist too, and the human is not asked: the reply makes no difference.
pub request_approval_denied :
    (cs : List Call) (reply : Reply) (tool_address method : Text) (s : State)
    → listed (tool_method_of tool_address method) s.preferences.blacklist ≡ true
    → let t = calls cs s in
      request_approval reply tool_address method t ≡ (err denied_by_blacklist, t)
unfolding request_approval
request_approval_denied cs reply tool_address method s h =
    rw (calls-IsDenied cs (tool_method_of tool_address method) s h) refl

unlisted :
    (t : Text) (s : State)
    → needs_approval s t ≡ true
    → (listed t s.preferences.blacklist ≡ false) × (listed t s.preferences.whitelist ≡ false)
unfolding needs_approval
unlisted t s h = ground arith

-- Once the human has answered so that the decision is `never`, the action is refused after any
-- further calls.
pub request_approval-never :
    (cs : List Call) (answer : Option Text) (reply : Reply) (tool_address method : Text) (s : State)
    → needs_approval s (tool_method_of tool_address method) ≡ true
    → parse_approval_response (lowered answer) ≡ never
    → let t = calls cs (request_approval (ok answer) tool_address method s).1 in
      request_approval reply tool_address method t ≡ (err denied_by_blacklist, t)
unfolding request_approval after_reply remember
request_approval-never cs answer reply tool_address method s needed decided =
    let t = tool_method_of tool_address method in
    let asked : (request_approval (ok answer) tool_address method s).1 ≡ add_to_blacklist t s =
      let (b, w) = unlisted t s needed in rw (b, w, needed) (rw decided refl) in
    request_approval_denied cs reply tool_address method
      (request_approval (ok answer) tool_address method s).1
      (rw asked (add_to_blacklist-denies t s))
