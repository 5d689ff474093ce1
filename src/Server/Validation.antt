-- ===== src/Server/Validation.antt =====
-- packages/o-server/src/validation: what a request has to pass before it reaches a node, and the
-- copy of its parameters that the node is given. The messages of the errors are its reasons.
pub mod Address
pub mod Method
pub mod Sanitize
mod Tests
use olane.Common.{
  ℕ, Bool, true, false, ◌&&◌, ◌||◌, List, [], ◌∷◌, Text, codes, text_eq, includes, starts_with,
  to_lower_case, any, if◌then◌else◌, leb, ◌==◌, Result, ok, err,
}
use olane.Common.Json.{
  Json, undefined, null, array, object, Items, end, item, Fields, closed, field,
}

pub data Reason : Type 0 where
  not_a_text path_traversal no_scheme control_character backslash private_method blocked_method :
      Reason

-- `/[\x00-\x1F\x7F]/`.
abbrev pub is_control : ℕ → Bool
is_control c = leb c 31 || c == 127

unfoldable pub validate_address : Text → Result Reason (Unit {0})
validate_address [] = err not_a_text
validate_address (c ∷ s) =
    let address = c ∷ s in
    let lower_address = to_lower_case address in
    if includes (codes "../") address || includes (codes "..\\") address
    then err path_traversal
    else if includes (codes "%2e%2e") lower_address || includes (codes "%252e") lower_address
    then err path_traversal
    else if starts_with (codes "o://") address
    then (if any is_control address
        then err control_character
        else if includes (codes "\\") address
        then err backslash
        else ok tt)
    else err no_scheme

abbrev pub blocked_methods : List Text
blocked_methods = codes "__proto__" ∷ codes "constructor" ∷ codes "prototype" ∷ []

unfoldable pub validate_method : Text → Result Reason (Unit {0})
validate_method [] = err not_a_text
validate_method (c ∷ s) =
    let method = c ∷ s in
    if starts_with (codes "_") method
    then err private_method
    else if any (text_eq (to_lower_case method)) blocked_methods
    then err blocked_method
    else if any is_control method
    then err control_character
    else ok tt

-- `DANGEROUS_KEYS.includes(key)`, then the same without regard to case.
unfoldable pub is_dangerous : Text → Bool
is_dangerous key =
    any (text_eq key) blocked_methods || any (text_eq (to_lower_case key)) blocked_methods

unfoldable mutual
  pub sanitize_params : Json → Json
  sanitize_params (array items) = array (sanitize_items items)
  sanitize_params (object fields) = object (sanitize_fields fields)
  sanitize_params primitive = primitive

  pub sanitize_items : Items → Items
  sanitize_items end = end
  sanitize_items (item j items) = item (sanitize_params j) (sanitize_items items)

  pub sanitize_fields : Fields → Fields
  sanitize_fields closed = closed
  sanitize_fields (field key j fields) =
      let rest = sanitize_fields fields in
      if is_dangerous key then rest else field key (sanitize_params j) rest
