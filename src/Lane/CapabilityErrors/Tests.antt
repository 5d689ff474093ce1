-- ===== src/Lane/CapabilityErrors/Tests.antt =====
-- Runs of the errors of a capability.
use olane.Common.{◌≡◌, refl, [], none, some, codes, includes, starts_with, strip_prefix}
use olane.Lane.CapabilityErrors.{
  Context, not_found, unknown, other, from, infer_type, get_error_type_label, get_remediation,
  to_human_readable,
}

run : Unit {0}
unfolding includes starts_with strip_prefix infer_type from get_error_type_label get_remediation
    to_human_readable
run = tt

abbrev at_cycle : Context
at_cycle = record {
  cycle = some (codes "2");
  capability_type = none;
  tool_address = some (codes "o://calc");
  method = none;
  intent = none;
}

slow : (from (other (some (codes "a timeout of 404 ms")) []) at_cycle).type ≡ not_found
unfolding run
slow = refl

-- The texts are compared as they are, capitals included.
shouted : infer_type (codes "Timeout") ≡ unknown
unfolding run
shouted = refl

refused :
    to_human_readable (from (other none (codes "403")) at_cycle)
    ≡ codes "Forbidden: 403\n\nOccurred in Cycle 2\nTool: o://calc"
unfolding run
refused = refl
