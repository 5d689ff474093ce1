-- ===== src/Core/ResponseBuilder/Tests.antt =====
-- Witnesses of the responses.
use olane.Common.{◌+◌, ◌≡◌, [], ◌∷◌, Option, none, some, Text, codes, if◌then◌else◌, ok, err}
use olane.Core.ResponseBuilder.{
  OError, foreign, Request, PartialContext, Metrics, Middleware, execute,
}
use olane.Core.ResponseBuilder.Counting.{total, returned, execute_lem}

abbrev no_error : Text → Option OError
no_error v = none

abbrev request : Request
request = record { id = codes "7"; method = codes "get"; connection_id = [] }

abbrev nothing_given : PartialContext
nothing_given = record {
  is_stream = none;
  is_last = none;
  success = none;
  request_method = none;
  connection_id = none;
}

-- Throws on what succeeded.
abbrev picky : Middleware Text
picky r c = if r.success then err (foreign none none (codes "no")) else ok r

abbrev before : Option Metrics
before = some (record { success_count = 2; error_count = 1 })

execute_lem_example :
    let (q, after) = execute no_error (picky ∷ []) request (ok (codes "v")) nothing_given before in
    total after ≡ 3 + returned before q
execute_lem_example =
    execute_lem no_error (picky ∷ []) request (ok (codes "v")) nothing_given before
