-- ===== src/Registry/Memory/Tests.antt =====
-- Witnesses of the leader's registry.
use olane.Common.{
  ℕ, ◌≡◌, refl, true, ◌&&◌, [], ◌∷◌, none, some, Text, codes, text_eq, get, set, any,
}
use olane.Registry.Memory.{
  RegistrationParams, RegistryState, SearchParams, find_all, commit, remove, search, has_protocols,
  with_protocols, insert_by_time, sort_by_time, map_protocols,
}
use olane.Registry.Memory.Search.{IsSorted, wants, search_lem}
use olane.Registry.Memory.Stale.{peers_of, remove-commit}

run : Unit {0}
unfolding text_eq get set find_all commit map_protocols search has_protocols with_protocols
    insert_by_time sort_by_time
run = tt

abbrev node : Text → ℕ → RegistrationParams
node name t = record {
  peer_id = name;
  address = codes "o://leader/p";
  static_address = codes "o://p";
  protocols = some (codes "/o/p" ∷ []);
  transports = none;
  registered_at = some t;
}

abbrev early : RegistrationParams
early = node (codes "a") 5

abbrev late : RegistrationParams
late = node (codes "b") 9

abbrev empty : RegistryState
empty = record { registry = []; protocol_mapping = [] }

abbrev two : RegistryState
two = record {
  registry = (codes "a", early) ∷ (codes "b", late) ∷ [];
  protocol_mapping = (codes "/o/p", codes "a" ∷ codes "b" ∷ []) ∷ [];
}

commit-commit : commit 1 late (commit 1 early empty) ≡ two
unfolding run
commit-commit = refl

abbrev request : SearchParams
request = record { protocols = some (codes "/o/p" ∷ []); address = none; static_address = none }

search_lem_example :
    IsSorted (late ∷ early ∷ [])
    × (any (λ r. text_eq r.peer_id (codes "a")) (late ∷ early ∷ [])
        ≡ any (λ r. wants request r && text_eq r.peer_id (codes "a")) (find_all two))
unfolding run
search_lem_example =
    search_lem request two (late ∷ early ∷ []) (λ r. text_eq r.peer_id (codes "a")) refl

remove-commit_example :
    let t = remove (codes "a") (commit 1 early empty) in
    (get (codes "a") t.registry ≡ none)
    × (any (text_eq (codes "a")) (peers_of (codes "/o/p") t.protocol_mapping) ≡ true)
unfolding text_eq
remove-commit_example = remove-commit 1 early (codes "/o/p" ∷ []) (codes "/o/p") empty refl refl
