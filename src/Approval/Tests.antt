-- ===== src/Approval/Tests.antt =====
-- Witnesses and runs of the approval.
use olane.Common.{
  ◌≡◌, refl, [], ◌∷◌, List, none, some, codes, text_eq, includes, strip_prefix, starts_with,
  to_lower_case, trim, trim_start, ok, err,
}
use olane.Approval.{
  review, approve, State, denied_by_blacklist, listed, needs_approval, parse_approval_response,
  lowered, request_approval,
}
use olane.Approval.Denial.{Call, prefer, switch, calls, request_approval-never}
use olane.Approval.Answers.{request_approval_allow}

run : Unit {0}
unfolding listed needs_approval text_eq parse_approval_response includes starts_with strip_prefix
    trim trim_start to_lower_case
run = tt

abbrev reviewing : State
reviewing = record {
  mode = review;
  preferences = record { whitelist = none; blacklist = some (codes "o://fs/delete" ∷ []) };
  saved = [];
}

abbrev later : List Call
later = prefer (codes "o://fs/delete") (codes "allow") ∷ switch none (codes "allow") ∷ []

-- The answer that the prompt offers, with the word that explains it.
never_allow : parse_approval_response (lowered (some (codes " Never allow "))) ≡ approve
unfolding run
never_allow = refl

request_approval-never_example :
    let t =
      calls later
        (request_approval
          (ok (some (codes "Never")))
          (codes "o://fs")
          (codes "read")
          reviewing).1 in
    request_approval (ok (some (codes "yes"))) (codes "o://fs") (codes "read") t
    ≡ (err denied_by_blacklist, t)
unfolding run
request_approval-never_example =
    request_approval-never later (some (codes "Never")) (ok (some (codes "yes"))) (codes "o://fs")
      (codes "read") reviewing refl refl

request_approval_allow_example :
    request_approval (ok (some (codes " Never ALLOW it"))) (codes "o://fs") (codes "read") reviewing
    ≡ (ok approve, reviewing)
unfolding run
request_approval_allow_example =
    request_approval_allow (codes " Never ") (codes "ALLOW") (codes " it") (codes "o://fs")
      (codes "read") reviewing refl refl
