-- ===== src/Node/Resolvers/Tests.antt =====
-- Runs of the resolvers of a node.
use olane.Common.{◌≡◌, refl, [], ◌∷◌, ◌++◌, codes}
use olane.Core.Address.{Address, address, scheme}
use olane.Core.Address.Hop.{join}
use olane.Core.Hierarchy.{Hierarchy}

abbrev own : Address
own = address (codes "o://leader")

abbrev family : Hierarchy
family = record { leaders = []; parents = []; children = address (codes "o://leader/a") ∷ [] }

abbrev wanted : Address
wanted = address (codes "o://leader/a/b")

split_path :
    codes "o://leader/a/b"
    ≡ scheme ++ (codes "leader" ++ b'/' ∷ (codes "a" ++ join (codes "b" ∷ [])))
unfolding join
split_path = refl

abbrev other_gateway : Address
other_gateway = address (codes "o://olanex/tools")
