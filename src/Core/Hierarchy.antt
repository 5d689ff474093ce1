-- ===== src/Core/Hierarchy.antt =====
-- packages/o-core/src/core/lib/o-hierarchy.manager.ts: the leaders, parents and children that a node
-- knows. `added[...]` of `deduplicate` is the list of the texts seen so far;
-- the names that every object inherits, which no address with a scheme is, are not among them.
pub mod Sets
mod Tests
use olane.Common.{
  Bool, not, List, [], ◌∷◌, Option, Text, text_eq, any, find, keep_if, if◌then◌else◌,
}
use olane.Core.Address.{Address, to_static_address}

pub record Hierarchy : Type 0 where
  pub leaders : List Address
  pub parents : List Address
  pub children : List Address

unfoldable pub dedup_from : List Text → List Address → List Address
dedup_from added [] = []
dedup_from added (a ∷ rest) =
    let skipped = dedup_from added rest in
    let kept = a ∷ dedup_from (a.value ∷ added) rest in
    if any (text_eq a.value) added then skipped else kept

unfoldable pub deduplicate : List Address → List Address
deduplicate rest = dedup_from [] rest

unfoldable pub remove_value : Text → List Address → List Address
remove_value v rest = deduplicate (keep_if (λ a. not (text_eq a.value v)) rest)

unfoldable pub clear : Hierarchy → Hierarchy
clear h = record { leaders = []; parents = []; children = [] }

unfoldable pub remove_child : Text → Hierarchy → Hierarchy
remove_child v h = record h { children = remove_value v h.children }

unfoldable pub add_child : Address → Hierarchy → Hierarchy
add_child a h =
    let g = remove_child a.value h in record g { children = deduplicate (a ∷ g.children) }

unfoldable pub get_child : Address → Hierarchy → Option Address
get_child a h =
    find (λ c. text_eq (to_static_address c).value (to_static_address a).value) h.children

unfoldable pub add_parent : Address → Hierarchy → Hierarchy
add_parent a h = record h { parents = deduplicate (a ∷ h.parents) }

unfoldable pub remove_parent : Text → Hierarchy → Hierarchy
remove_parent v h = record h { parents = remove_value v h.parents }
