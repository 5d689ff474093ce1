-- ===== src/Gateway/Names.antt =====
-- packages/o-gateway-registry/src/registry/reserved-names.ts: which names an operator can claim.
pub mod Policy
mod Tests
use olane.Common.{
  ℕ, Bool, true, false, not, ◌&&◌, ◌||◌, List, [], ◌∷◌, Option, none, some, Text, codes, text_eq,
  any, length, if◌then◌else◌, ltb, leb, ◌==◌, to_lower_case,
}

abbrev pub reserved_gateway_names : List Text
reserved_gateway_names =
    codes "olane"
    ∷ codes "localhost"
    ∷ codes "local"
    ∷ codes "leader"
    ∷ codes "lane"
    ∷ codes "registry"
    ∷ codes "internal"
    ∷ []

-- `[a-z0-9]`.
unfoldable pub is_alphanumeric : ℕ → Bool
is_alphanumeric c = (leb 97 c && leb c 122) || (leb 48 c && leb c 57)

-- `/^[a-z0-9]$/`.
abbrev pub is_single : Text → Bool
is_single [] = false
is_single (c ∷ []) = is_alphanumeric c
is_single (c ∷ d ∷ s) = false

unfoldable pub is_reserved_gateway_name : Text → Bool
is_reserved_gateway_name name =
    let normalized = to_lower_case name in
    any (text_eq normalized) reserved_gateway_names || is_single normalized

-- `[a-z0-9-]*[a-z0-9]` at the end, or nothing.
unfoldable pub label_rest : Text → Bool
label_rest [] = true
label_rest (c ∷ []) = is_alphanumeric c
label_rest (c ∷ d ∷ s) = let rest = label_rest (d ∷ s) in (is_alphanumeric c || c == 45) && rest

-- `/^[a-z0-9](?:[a-z0-9-]*[a-z0-9])?$/`.
unfoldable pub is_label : Text → Bool
is_label [] = false
is_label (c ∷ s) = is_alphanumeric c && label_rest s

pub data Rejection : Type 0 where
  name_is_empty too_short too_long malformed : Rejection
  name_is_reserved : Text → Rejection

unfoldable pub validate_gateway_name : Text → Option Rejection
validate_gateway_name name =
    if length name == 0
    then some name_is_empty
    else if ltb (length name) 2
    then some too_short
    else if ltb 63 (length name)
    then some too_long
    else if not (is_label name)
    then some malformed
    else if is_reserved_gateway_name name
    then some (name_is_reserved name)
    else none
