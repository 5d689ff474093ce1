-- ===== src/Gateway/Canonical/Tests.antt =====
-- Witnesses and runs of the canonical text.
use olane.Common.{◌≡◌, refl, [], ◌∷◌, ◌++◌, Text, codes, ok}
use olane.Common.Json.{undefined, null, number, object, Fields, closed, field}
use olane.Gateway.Canonical.{canonicalize, text_le, insert, sort, join, member, members}
use olane.Gateway.Canonical.Forgetting.{
  same_value, same_object, same_field, swapped, absent, same_trans, canonicalize-Same,
}

abbrev quote : Text → Text
quote t = b'"' ∷ t ++ b'"' ∷ []

abbrev one_way : Fields
one_way =
    field (codes "value") (number (codes "1"))
      (field (codes "a") null (field (codes "c") undefined closed))

abbrev other_way : Fields
other_way = field (codes "a") null (field (codes "value") (number (codes "1")) closed)

printed : canonicalize quote (object one_way) ≡ ok (codes "{\"a\":null,\"value\":1}")
unfolding canonicalize sort insert text_le join member members
printed = refl

canonicalize-Same_example :
    canonicalize quote (object one_way) ≡ canonicalize quote (object other_way)
canonicalize-Same_example = canonicalize-Same quote (object one_way) (object other_way) (
    same_object
      (same_trans (swapped (λ e. cc)) (same_field same_value (same_field same_value absent))))
