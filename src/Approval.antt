-- ===== src/Approval.antt =====
-- packages/o-approval/src/o-approval.tool.ts: the approval of actions by a human. What the human or
-- the clock does is a parameter: an answer, which may be missing, or the error that was thrown, which
-- is `Approval timeout` if the time is up first. `saved` lists the preferences that were sent to the
-- leader, whose failure is only logged.
pub mod Denial
pub mod Parsing
pub mod Answers
mod Tests
use olane.Common.{
  ℕ, Bool, true, false, not, ◌&&◌, ◌||◌, List, [], ◌∷◌, ◌++◌, reverse, Option, none, some, Text,
  codes, text_eq, includes, to_lower_case, trim, any, if◌then◌else◌, leb, ◌==◌, or_default, Result,
  ok, err,
}

pub data Mode : Type 0 where
  allow review auto : Mode

pub data Decision : Type 0 where
  approve deny always never : Decision

pub record Preferences : Type 0 where
  pub whitelist : Option (List Text)
  pub blacklist : Option (List Text)

pub record State : Type 0 where
  pub mode : Mode
  pub preferences : Preferences
  pub saved : List Preferences

pub data Problem : Type 0 where
  denied_by_blacklist invalid_preference invalid_mode : Problem
  thrown : Text → Problem

-- `list?.includes(toolMethod)`.
unfoldable pub listed : Text → Option (List Text) → Bool
listed tool_method list = any (text_eq tool_method) (or_default list [])

abbrev pub tool_method_of : Text → Text → Text
tool_method_of tool_address method = tool_address ++ (codes "/" ++ method)

unfoldable pub needs_approval : State → Text → Bool
needs_approval s tool_method =
    if listed tool_method s.preferences.blacklist
    then false
    else if listed tool_method s.preferences.whitelist
    then false
    else (elim s.mode as (λ m. Bool) [ allow ↦ false | review ↦ true | auto ↦ true ])

unfoldable pub parse_approval_response : Option Text → Decision
parse_approval_response none = deny
parse_approval_response (some []) = deny
parse_approval_response (some (c ∷ s)) =
    let answer = c ∷ s in
    if includes (codes "approve") answer
      || includes (codes "yes") answer
      || includes (codes "allow") answer
    then approve
    else if includes (codes "always") answer
    then always
    else if includes (codes "never") answer
    then never
    else deny

unfoldable pub save_preferences : State → State
save_preferences s = record s { saved = s.saved ++ s.preferences ∷ [] }

unfoldable pub add_to_whitelist : Text → State → State
add_to_whitelist tool_method s =
    let list = or_default s.preferences.whitelist [] in
    let given = record s { preferences = record (s.preferences) { whitelist = some list } } in
    if any (text_eq tool_method) list
    then given
    else save_preferences (record s {
      preferences = record (s.preferences) { whitelist = some (list ++ tool_method ∷ []) };
    })

unfoldable pub add_to_blacklist : Text → State → State
add_to_blacklist tool_method s =
    let list = or_default s.preferences.blacklist [] in
    let given = record s { preferences = record (s.preferences) { blacklist = some list } } in
    if any (text_eq tool_method) list
    then given
    else save_preferences (record s {
      preferences = record (s.preferences) { blacklist = some (list ++ tool_method ∷ []) };
    })

-- What the race of the question and the clock comes to.
abbrev pub Reply : Type 0
Reply = Result Text (Option Text)

abbrev pub lowered : Option Text → Option Text
lowered none = none
lowered (some answer) = some (to_lower_case (trim answer))

abbrev pub is_approval : Decision → Bool
is_approval approve = true
is_approval always = true
is_approval other = false

-- `Handle preference storage`.
unfoldable pub remember : Decision → Text → State → State
remember always tool_method s = add_to_whitelist tool_method s
remember never tool_method s = add_to_blacklist tool_method s
remember approve tool_method s = s
remember deny tool_method s = s

unfoldable pub after_reply : Reply → Text → State → Result Problem Decision × State
after_reply (err e) tool_method s = (err (thrown e), s)
after_reply (ok answer) tool_method s =
    let decision = parse_approval_response (lowered answer) in
    (ok decision, remember decision tool_method s)

-- `_tool_request_approval`; `approved` of the answer is `is_approval` of the decision.
unfoldable pub request_approval : Reply → Text → Text → State → Result Problem Decision × State
request_approval reply tool_address method s =
    let tool_method = tool_method_of tool_address method in
    if listed tool_method s.preferences.blacklist
    then (err denied_by_blacklist, s)
    else if listed tool_method s.preferences.whitelist
    then (ok approve, s)
    else if not (needs_approval s tool_method)
    then (ok approve, s)
    else after_reply reply tool_method s

unfoldable pub set_preference : Text → Text → State → Result Problem (Unit {0}) × State
set_preference tool_method preference s =
    if text_eq preference (codes "allow")
    then (ok tt, add_to_whitelist tool_method s)
    else if text_eq preference (codes "deny")
    then (ok tt, add_to_blacklist tool_method s)
    else (err invalid_preference, s)

abbrev pub mode_of : Text → Option Mode
mode_of text =
    if text_eq text (codes "allow")
    then some allow
    else if text_eq text (codes "review")
    then some review
    else if text_eq text (codes "auto")
    then some auto
    else none

-- The mode is set before it is sent to the leader, which may fail.
unfoldable pub set_mode : Option Text → Text → State → Result Problem Mode × State
set_mode problem text s = elim (mode_of text) [
  | none ↦ (err invalid_mode, s)
  | some m ↦ elim problem [
    | none ↦ (ok m, record s { mode = m })
    | some e ↦ (err (thrown e), record s { mode = m })
  ]
]
