-- ===== src/Core/ResolverChain.antt =====
-- packages/o-core/src/router/o-resolver-chain.ts: the resolvers that an address passes on its way to a
-- route. A resolver is a parameter: the transports that it is for, and what it answers to an address,
-- a target and a request, or the error that it throws. `R` is the type of requests.
pub mod Order
mod Tests
use olane.Common.{
  Bool, true, false, List, [], ◌∷◌, ◌++◌, Option, none, some, Text, any, if◌then◌else◌, or_default,
  Result, ok, err, ◌>>=◌,
}
use olane.Core.Address.{TransportType, Address, type_eq}

module _ (R : Type 0) where
  -- The next hop, with a new target and a new request if the resolver has them.
  pub record Answer : Type 0 where
    pub next_hop_address : Address
    pub target_address : Option Address
    pub request_override : Option R

  pub record Route : Type 0 where
    pub next_hop_address : Address
    pub target_address : Address
    pub request_override : Option R

  pub record Resolver : Type 0 where
    pub transport_types : List TransportType
    pub resolve : Address → Address → Option R → Result Text (Answer)

module _ {R : Type 0} where
  unfoldable pub add_resolver : Resolver R → Bool → List (Resolver R) → List (Resolver R)
  add_resolver r is_priority chain = if is_priority then r ∷ chain else chain ++ r ∷ []

  unfoldable pub supports_address : Address → List (Resolver R) → Bool
  supports_address a chain =
      any (λ r. any (λ t. any (λ w. type_eq w t.type) r.transport_types) a.transports) chain

  -- `x || y`, where both may be missing.
  abbrev pub either : Option R → Option R → Option R
  either none y = y
  either (some x) y = some x

  -- One round of the loop.
  unfoldable pub apply : Resolver R → Route R → Result Text (Route R)
  apply r route =
      r.resolve route.next_hop_address route.target_address route.request_override >>= λ answer.
      ok (record {
        next_hop_address = answer.next_hop_address;
        target_address = or_default answer.target_address route.target_address;
        request_override = either answer.request_override route.request_override;
      })

  unfoldable pub resolve_from : List (Resolver R) → Route R → Result Text (Route R)
  resolve_from [] route = ok route
  resolve_from (r ∷ chain) route = apply r route >>= resolve_from chain

  unfoldable pub resolve : List (Resolver R) → Address → Option R → Result Text (Route R)
  resolve chain a request =
      resolve_from chain
        (record { next_hop_address = a; target_address = a; request_override = request })
