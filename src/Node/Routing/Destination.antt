-- ===== src/Node/Routing/Destination.antt =====
-- When the next hop counts as the destination.
use olane.Common.{
  ◌≡◌, refl, Bool, true, false, not, ◌&&◌, List, [], ◌∷◌, ◌++◌, Text, text_eq, any, every, split,
  split_last, ok, arith,
}
use olane.Core.Address.{
  Transport, Address, address, scheme, paths, equals, transports_equal, to_static_address,
}
use olane.Node.Routing.{
  RouterRequest, sent, envelope, is_self_address, is_destination_address, next_hop_request, forward,
}

abbrev pub last_segment : Address → Text
last_segment a = split_last (split b'/' (paths a))

every-none :
    (ts : List Transport)
    → every (λ (t : Transport). any (λ (t2 : Transport). text_eq t.value t2.value) []) ts
      ≡ not (any (λ t. true) ts)
every-none [] = refl
every-none (t ∷ ts) = refl

text_eq-behind : (p s t : Text) → text_eq (p ++ s) (p ++ t) ≡ text_eq s t
unfolding text_eq
text_eq-behind [] s t = refl
text_eq-behind (c ∷ p) s t = ground (arith, text_eq-behind p s t)

-- The next hop counts as the destination exactly if it comes with no transport at all and its last
-- segment is that of the address asked for, whatever leads up to it.
pub is_destination_address_lem :
    (a : Address) (r : RouterRequest)
    → is_destination_address a r ≡ (
        text_eq (last_segment a) (last_segment (address r.address))
        && not (any (λ t. true) a.transports))
unfolding is_destination_address equals transports_equal to_static_address
is_destination_address_lem a r =
    rw
      (
        text_eq-behind scheme (last_segment a) (last_segment (address r.address)),
        every-none a.transports,
      )
      refl

and_false : (b : Bool) → (b && false) ≡ false
and_false b = ground arith

-- A request that goes to another node with a transport is handed on as it came, with its envelope,
-- whether or not that node is the one asked for.
pub forward-envelope :
    (own a : Address) (r : RouterRequest)
    → r.stream ≡ true
    → is_self_address own a ≡ false
    → any (λ t. true) a.transports ≡ true
    → forward own a r ≡ ok (sent a (envelope r))
unfolding forward next_hop_request
forward-envelope own a r s o d =
    let kept : is_destination_address a r ≡ false =
      rw (is_destination_address_lem a r, d)
        (and_false (text_eq (last_segment a) (last_segment (address r.address)))) in
    simp (s, o, kept)
