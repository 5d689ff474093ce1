-- ===== src/Server/Validation/Tests.antt =====
-- Witnesses and runs of the validation.
use olane.Common.{
  ◌≡◌, refl, true, codes, text_eq, includes, starts_with, strip_prefix, to_lower_case, ok, err,
}
use olane.Common.Json.{Json, boolean, number, object, array, item, end, Fields, field, closed}
use olane.Server.Validation.{
  path_traversal, blocked_method, validate_address, validate_method, is_dangerous, sanitize_params,
  sanitize_fields,
}
use olane.Server.Validation.Sanitize.{IsClean, IsSafe, get_field, copied, sanitize_params_lem}

run : Unit {0}
unfolding text_eq includes starts_with strip_prefix to_lower_case validate_address validate_method
    is_dangerous sanitize_params
run = tt

-- `..` as the last segment is let through: only `../` is looked for.
parent_at_end : validate_address (codes "o://leader/..") ≡ ok tt
unfolding run
parent_at_end = refl

encoded_refused : validate_address (codes "o://leader/%2E%2e/x") ≡ err path_traversal
unfolding run
encoded_refused = refl

constructor_refused : validate_method (codes "Constructor") ≡ err blocked_method
unfolding run
constructor_refused = refl

-- `{ "a": [{ "__PROTO__": true }], "constructor": 1 }`.
abbrev params : Json
params = object (
    field (codes "a") (array (item (object (field (codes "__PROTO__") (boolean true) closed)) end))
      (field (codes "constructor") (number (codes "1")) closed))

sanitized :
    sanitize_params params ≡ object (field (codes "a") (array (item (object closed) end)) closed)
unfolding run
sanitized = refl

abbrev fields : Fields
fields = field (codes "Constructor") (boolean true) (field (codes "a") params closed)

sanitize_params_lem_example :
    IsClean (sanitize_params params)
    × (IsClean params → sanitize_params params ≡ params)
    × (IsSafe (codes "a")
        → get_field (codes "a") (sanitize_fields fields) ≡ copied (get_field (codes "a") fields))
sanitize_params_lem_example = sanitize_params_lem params fields (codes "a")
