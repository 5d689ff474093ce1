-- ===== src/Approval/Parsing.antt =====
-- How an answer is read, and what is approved.
use olane.Common.{
  ◌≡◌, Bool, true, false, not, ◌&&◌, ◌||◌, [], ◌∷◌, ◌++◌, some, Text, codes, includes-append,
  Result, ok, err, arith,
}
use olane.Approval.{
  Mode, allow, review, auto, Decision, approve, State, listed, tool_method_of, needs_approval,
  parse_approval_response, lowered, Problem, is_approval, Reply, after_reply, request_approval,
}

-- What is compared approves with `allow` anywhere in it.
pub parse_approval_response_allow :
    (before after : Text)
    → parse_approval_response (some (before ++ (codes "allow" ++ after))) ≡ approve
unfolding parse_approval_response
parse_approval_response_allow [] after =
    let found = includes-append (codes "allow") [] after in ground arith
parse_approval_response_allow (c ∷ before) after =
    let found = includes-append (codes "allow") (c ∷ before) after in ground arith

abbrev pub approves : Result Problem Decision → Bool
approves (ok d) = is_approval d
approves (err e) = false

abbrev pub allows_all : Mode → Bool
allows_all allow = true
allows_all review = false
allows_all auto = false

abbrev pub approves_reply : Reply → Bool
approves_reply (ok answer) = is_approval (parse_approval_response (lowered answer))
approves_reply (err e) = false

-- An action is approved exactly if it is not on the blacklist, and it is on the whitelist, or the mode
-- allows everything, or the human answers so that the decision approves it.
pub request_approval_lem :
    (reply : Reply) (tool_address method : Text) (s : State)
    → let t = tool_method_of tool_address method in
      approves (request_approval reply tool_address method s).0 ≡ (
        not (listed t s.preferences.blacklist)
        && (listed t s.preferences.whitelist || allows_all s.mode || approves_reply reply))
unfolding request_approval needs_approval after_reply
request_approval_lem (ok answer) tool_address method s = ground arith
request_approval_lem (err e) tool_address method s = ground arith
