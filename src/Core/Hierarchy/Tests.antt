-- ===== src/Core/Hierarchy/Tests.antt =====
-- Small runs of the hierarchy.
use olane.Common.{
  ◌≡◌, refl, [], ◌∷◌, Text, codes, text_eq, strip_prefix, replace, split, split_last,
}
use olane.Core.Address.{Address, address, paths, to_static_address, libp2p}
use olane.Core.Hierarchy.{
  Hierarchy, dedup_from, deduplicate, remove_value, remove_child, add_child, get_child, add_parent,
  remove_parent,
}
use olane.Core.Hierarchy.Sets.{has}

run : Unit {0}
unfolding text_eq strip_prefix replace split split_last paths to_static_address dedup_from
    deduplicate remove_value remove_child add_child get_child add_parent remove_parent has
run = tt

abbrev old : Address
old = address (codes "o://leader/calc")

abbrev fresh : Address
fresh = record {
  value = codes "o://leader/calc";
  transports = record { value = codes "/memory/1"; type = libp2p } ∷ [];
}

abbrev node : Hierarchy
node = record {
  leaders = [];
  parents = [];
  children = old ∷ address (codes "o://leader/mail") ∷ [];
}

replaced : (add_child fresh node).children ≡ fresh ∷ address (codes "o://leader/mail") ∷ []
unfolding run
replaced = refl

abbrev mail : Text
mail = codes "o://leader/mail"
