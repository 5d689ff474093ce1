-- ===== src/Gateway/Names/Tests.antt =====
-- Witnesses and runs of the naming policy.
use olane.Common.{◌≡◌, refl, ◌↔◌, true, none, some, codes, text_eq, to_lower_case}
use olane.Gateway.Names.{
  is_reserved_gateway_name, is_alphanumeric, is_label, label_rest, validate_gateway_name, malformed,
}
use olane.Gateway.Names.Policy.{IsGatewayName, validate_gateway_name_lem}

reserved_any_case : is_reserved_gateway_name (codes "LocalHost") ≡ true
unfolding is_reserved_gateway_name to_lower_case text_eq
reserved_any_case = refl

trailing_hyphen : validate_gateway_name (codes "acme-") ≡ some malformed
unfolding validate_gateway_name is_label label_rest is_alphanumeric
trailing_hyphen = refl

validate_gateway_name_lem_example :
    (validate_gateway_name (codes "acme-2") ≡ none) ↔ IsGatewayName (codes "acme-2")
validate_gateway_name_lem_example = validate_gateway_name_lem (codes "acme-2")
