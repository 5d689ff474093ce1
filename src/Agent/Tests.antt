-- ===== src/Agent/Tests.antt =====
-- Witnesses and runs of the sub-paths of an agent.
use olane.Common.{
  ◌≡◌, refl, List, [], ◌∷◌, Text, codes, arith, text_eq, strip_prefix, split, cons_head, trim,
  trim_start,
}
use olane.Core.Address.{Address, address}
use olane.Agent.{
  Params, no_params, id, key, path, Method, method, inherited, in_table, segments_of,
  tail_to_params, parse_segments, parse_sub_path,
}
use olane.Agent.SubPaths.{IsSubPath, under, parse_sub_path_documented}

abbrev own : Address
own = address (codes "o://brendon/code")

-- A name that every object inherits is not taken for a method.
constructor :
    parse_sub_path (address (codes "o://brendon/code/constructor")) own
    ≡ (inherited (codes "constructor"), no_params)
unfolding parse_sub_path parse_segments segments_of in_table tail_to_params text_eq strip_prefix
    split cons_head trim trim_start
constructor = refl

-- The address of another agent, whose name begins alike, is read as one of this agent's.
sibling :
    parse_sub_path (address (codes "o://brendon/code2/inbox")) own
    ≡ (method (codes "2"), key (codes "inbox"))
unfolding parse_sub_path parse_segments segments_of in_table tail_to_params text_eq strip_prefix
    split cons_head trim trim_start
sibling = refl

seven : IsSubPath (codes "7")
unfolding trim trim_start
seven = record { nonempty = refl; no_slash = ((λ e. cc), tt); trimmed = refl }

send_word : IsSubPath (codes "send")
unfolding trim trim_start
send_word = record { nonempty = refl; no_slash = omega arith; trimmed = refl }

parse_sub_path_documented_example :
    let reads : List Text → Method × Params = (λ ss. parse_sub_path (under own ss) own) in
    (reads [] ≡ (method (codes "route_to_self"), no_params))
    × (reads (codes "inbox" ∷ []) ≡ (method (codes "list_inbox"), no_params))
    × (reads (codes "inbox" ∷ codes "7" ∷ codes "7" ∷ [])
        ≡ (method (codes "read_message"), id (codes "7")))
    × (reads (codes "send" ∷ []) ≡ (method (codes "send"), no_params))
    × (reads (codes "receive" ∷ []) ≡ (method (codes "receive"), no_params))
    × (reads (codes "drain" ∷ []) ≡ (method (codes "drain_inbox"), no_params))
    × (reads (codes "card" ∷ []) ≡ (method (codes "get_card"), no_params))
    × (reads (codes "status" ∷ []) ≡ (method (codes "get_status"), no_params))
    × (reads (codes "send" ∷ codes "7" ∷ []) ≡ ((reads (codes "send" ∷ [])).0, key (codes "7")))
    × (reads (codes "send" ∷ codes "7" ∷ codes "7" ∷ codes "7" ∷ [])
        ≡ ((reads (codes "send" ∷ [])).0, path (codes "7" ∷ codes "7" ∷ codes "7" ∷ [])))
parse_sub_path_documented_example =
    parse_sub_path_documented own (codes "send") (codes "7") (codes "7") (codes "7" ∷ []) send_word
      seven seven (seven, tt) (λ e. cc)
