-- ===== src/Node/SearchResolver/Tests.antt =====
-- Witnesses of the search resolver.
use olane.Common.{
  ◌≡◌, refl, true, false, [], ◌∷◌, none, codes, text_eq, Lacks, replace, strip_prefix, split,
  split_head, cons_head, ok,
}
use olane.Core.Address.{Address, libp2p, address, paths, to_root_address, set_transports}
use olane.Core.Address.Hop.{IsSegment, join}
use olane.Core.Address.Route.{below}
use olane.Core.Hierarchy.{get_child}
use olane.Node.SearchResolver.{
  SearchResult, Node, map_transports, transports_of, resolve_next_hop_transports, extra_params,
  ends_with, resolve,
}
use olane.Node.SearchResolver.Path.{named, resolve_below}
use olane.Node.SearchResolver.Looping.{resolve_own}

abbrev found : SearchResult
found = record {
  static_address = codes "o://mail";
  address = codes "o://leader/desk/mail";
  transports = codes "/dns4/mail" ∷ [];
}

abbrev desk : Address
desk = record {
  value = codes "o://leader/desk";
  transports = record { value = codes "/dns4/desk"; type = libp2p } ∷ [];
}

abbrev leader_node : Node
leader_node = record {
  address = address (codes "o://leader");
  leader = none;
  hierarchy = record { leaders = []; parents = []; children = desk ∷ [] };
  is_running = true;
}

abbrev wanted : Address
wanted = address (codes "o://mail/send")

abbrev anywhere : Address
anywhere = address (codes "o://anywhere")

not_at_end : ends_with (join (codes "send" ∷ [])) (codes "o://leader/desk/mail") ≡ false
unfolding ends_with join text_eq
not_at_end = refl

not_registry : text_eq (codes "o://mail") (codes "o://registry") ≡ false
unfolding text_eq
not_registry = refl

same_join : codes "o://mail/send" ≡ named (codes "mail") (codes "send" ∷ [])
unfolding join
same_join = refl

same_below : codes "o://leader/desk/mail" ≡ below (codes "desk" ∷ codes "mail" ∷ [])
unfolding join
same_below = refl

same_leader : codes "o://leader" ≡ below []
unfolding join
same_leader = refl

no_slash_mail : Lacks b'/' (codes "mail")
no_slash_mail = ((λ e. cc), ((λ e. cc), ((λ e. cc), ((λ e. cc), tt))))

desk-IsSegment : IsSegment (codes "desk")
desk-IsSegment = record {
  nonempty = λ e. cc;
  no_slash = ((λ e. cc), ((λ e. cc), ((λ e. cc), ((λ e. cc), tt))));
  not_o = λ e. cc;
}

mail-IsSegment : IsSegment (codes "mail")
mail-IsSegment = record { nonempty = λ e. cc; no_slash = no_slash_mail; not_o = λ e. cc }

send-IsSegment : IsSegment (codes "send")
send-IsSegment = record {
  nonempty = λ e. cc;
  no_slash = ((λ e. cc), ((λ e. cc), ((λ e. cc), ((λ e. cc), tt))));
  not_o = λ e. cc;
}

resolve_below_example :
    let child = address (below (codes "desk" ∷ [])) in
    resolve leader_node wanted anywhere (ok (found ∷ [])) ≡ (
      record {
        next_hop_address = record {
          value = child.value;
          transports = transports_of (get_child child leader_node.hierarchy) (map_transports found);
        };
        target_address = record {
          value = below (codes "desk" ∷ codes "mail" ∷ codes "send" ∷ []);
          transports = map_transports found;
        };
      },
      leader_node,
    )
resolve_below_example =
    resolve_below [] (codes "mail" ∷ []) (codes "send" ∷ []) (codes "desk") (codes "mail") wanted
      anywhere found leader_node [] same_leader refl same_join refl no_slash_mail desk-IsSegment
      (mail-IsSegment, (send-IsSegment, tt)) not_registry same_below (λ e. cc) not_at_end

abbrev mail_node : Node
mail_node = record {
  address = address (codes "o://leader/desk/mail");
  leader = none;
  hierarchy = record { leaders = []; parents = []; children = [] };
  is_running = true;
}

nothing_to_add : extra_params (address (codes "o://mail")) ≡ []
unfolding extra_params to_root_address paths replace strip_prefix split split_head cons_head
nothing_to_add = refl

resolve_own_example :
    let own =
      set_transports
        (resolve_next_hop_transports mail_node.address (map_transports found) mail_node)
        mail_node.address in
    let (route, after) =
      resolve mail_node (address (codes "o://mail")) anywhere (ok (found ∷ [])) in
    (route.next_hop_address ≡ own) × (after ≡ record mail_node { address = own })
resolve_own_example =
    resolve_own mail_node (address (codes "o://mail")) anywhere found [] refl refl not_registry refl
      (rw nothing_to_add refl)
