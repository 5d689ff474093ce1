-- ===== src/Node/Routing/Referral.antt =====
-- Which addresses a node hands to another leader.
use olane.Common.{
  ◌≡◌, refl, ap, ◌&&◌, ◌⊎◌, inl, inr, ok, Bool, true, false, not, ◌||◌, List, [], ◌∷◌, none, some,
  text_eq, text_eq_refl, any, keep_if, if◌then◌else◌, Bool-cases, arith,
}
use olane.Core.Address.{
  Transport, libp2p, Address, leader_value, libp2p_transports, equals, type_eq,
}
use olane.Core.Hierarchy.{Hierarchy}
use olane.Core.ResolverChain.{Route, Resolver, resolve}
use olane.Node.Routing.{
  is_internal_address, is_leader_ref, get_external_routing_strategy, translate,
}

-- Whether the address is the node's own or that of a parent, a child or a leader of it.
abbrev pub knows : Address → Hierarchy → Address → Bool
knows own h a =
    equals own a
    || (any (λ p. equals p a) h.parents
        || (any (λ c. equals c a) h.children || any (λ l. equals l a) h.leaders))

all_internal :
    (p c l : Bool) → (if p then true else if c then true else if l then true else true) ≡ true
all_internal p c l = ground arith

leader-internal :
    (own : Address) (h : Hierarchy) (ts : List Transport)
    → is_internal_address own h (record { value = leader_value; transports = ts }) ≡ true
unfolding is_internal_address
leader-internal own h ts =
    let hop : Address = record { value = leader_value; transports = ts } in
    rw (text_eq_refl leader_value) (
      all_internal (any (λ p. equals p hop) h.parents) (any (λ c. equals c hop) h.children)
        (is_leader_ref hop))

last_resort :
    (p c l v o k : Bool)
    → (if p then true else if c then true else if l then v || (o || k) else true) ≡ false
    → (l && (not v && not (o || (p || (c || k))))) ≡ true
last_resort p c l v o k h = ground arith

external-unknown :
    (own : Address) (h : Hierarchy) (a : Address)
    → is_internal_address own h a ≡ false
    → (is_leader_ref a && (not (text_eq a.value leader_value) && not (knows own h a))) ≡ true
unfolding is_internal_address
external-unknown own h a e =
    last_resort (any (λ p. equals p a) h.parents) (any (λ c. equals c a) h.children)
      (is_leader_ref a) (text_eq a.value leader_value) (equals own a)
      (any (λ l. equals l a) h.leaders) e

keep_if_idem : {A : Type 0} (p : A → Bool) (xs : List A) → keep_if p (keep_if p xs) ≡ keep_if p xs
keep_if_idem p [] = refl
keep_if_idem p (x ∷ xs) = elim (Bool-cases (p x)) [
  | inl e ↦ rw (e, e) (ap (◌∷◌ x) (keep_if_idem p xs))
  | inr e ↦ rw e (keep_if_idem p xs)
]

module _ {R : Type 0} where
  -- The route of an external address.
  abbrev pub referral : Address → Route R
  referral a = record {
    next_hop_address = record { value = leader_value; transports = libp2p_transports a };
    target_address = a;
    request_override = none;
  }

  -- Where a node sends an address by its policy alone.
  strategy_lem :
      (own : Address) (h : Hierarchy) (a : Address)
      → ((is_internal_address own h a ≡ true)
          × (get_external_routing_strategy {R = R} own h a ≡ none))
        ⊎ ((is_internal_address own h a ≡ false)
            × (get_external_routing_strategy own h a ≡ some (referral a)))
  unfolding get_external_routing_strategy
  strategy_lem own h a = elim (Bool-cases (is_internal_address own h a)) [
    | inl e ↦ inl (e, rw e refl)
    | inr e ↦ inr (e, rw e refl)
  ]

  internal-resolve :
      (own : Address) (h : Hierarchy) (chain : List (Resolver R)) (a : Address)
      → is_internal_address own h a ≡ true
      → translate own h chain a ≡ resolve chain a none
  unfolding translate get_external_routing_strategy
  internal-resolve own h chain a e = rw e refl

  -- An internal address is translated by the node's resolvers. Any other is an address that speaks of a leader and can
  -- be dialed, and is not `o://leader` itself, nor known to the node as its own, a parent, a child or a
  -- leader. Its target stays what it was, and its next hop is dialed as the address is; and the next
  -- hop is not handed on again: whatever node translates it asks its own resolvers.
  pub translate_lem :
      (own : Address) (h : Hierarchy) (chain : List (Resolver R)) (a : Address)
      → ((is_internal_address own h a ≡ true) × (translate own h chain a ≡ resolve chain a none))
        ⊎ ((r : Route R) × (is_internal_address own h a ≡ false)
            × (translate own h chain a ≡ ok r)
            × (r.target_address ≡ a)
            × (libp2p_transports r.next_hop_address ≡ libp2p_transports a)
            × ((is_leader_ref a && (not (text_eq a.value leader_value) && not (knows own h a)))
                ≡ true)
            × ((other : Address) (g : Hierarchy) (rest : List (Resolver R))
                → translate other g rest r.next_hop_address ≡ resolve rest r.next_hop_address none))
  unfolding translate libp2p_transports
  translate_lem own h chain a = elim (strategy_lem own h a) [
    | inl (e, s) ↦ inl (e, rw s refl)
    | inr (e, s) ↦ inr (
      referral a,
      e,
      rw s refl,
      refl,
      keep_if_idem (λ t. type_eq t.type libp2p) a.transports,
      external-unknown own h a e,
      λ other g rest.
          internal-resolve other g rest
            (record { value = leader_value; transports = libp2p_transports a })
            (leader-internal other g (libp2p_transports a)),
    )
  ]
