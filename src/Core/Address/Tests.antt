-- ===== src/Core/Address/Tests.antt =====
-- Witnesses and small runs of addresses.
use olane.Common.{
  ◌≡◌, refl, true, false, [], ◌∷◌, codes, text_eq, strip_prefix, starts_with, includes, replace,
  split, split_head, split_last, arith,
}
use olane.Core.Address.{
  Address, address, leader, leader_value, transports_equal, equals, paths, protocol, is_nested,
  is_static, next_segment, next, to_static_address, to_root_address,
}
use olane.Core.Address.Hop.{IsSegment, join}
use olane.Core.Address.Route.{hops, hops-below, next-below_o}

run : Unit {0}
unfolding text_eq strip_prefix starts_with includes replace split split_head split_last
    transports_equal equals paths protocol is_nested is_static next_segment next to_static_address
    to_root_address join hops
run = tt

abbrev tool : Address
tool = address (codes "o://leader/agent/tool")

static_tool : (to_static_address tool).value ≡ codes "o://tool"
unfolding run
static_tool = refl

root_tool : (to_root_address tool).value ≡ leader_value
unfolding run
root_tool = refl

nested_tool : is_nested tool ≡ true
unfolding run
nested_tool = refl

through_leader :
    (next (address (codes "o://leader/x")) (address (codes "o://calc"))).value ≡ leader_value
unfolding run
through_leader = refl

seg_agent : IsSegment (codes "agent")
seg_agent = record { nonempty = λ e. cc; no_slash = omega arith; not_o = λ e. cc }

seg_tool : IsSegment (codes "tool")
seg_tool = record { nonempty = λ e. cc; no_slash = omega arith; not_o = λ e. cc }

hops-below_example : (hops 2 leader tool).value ≡ tool.value
unfolding run
hops-below_example =
    hops-below (codes "agent" ∷ codes "tool" ∷ []) [] leader tool (seg_agent, (seg_tool, tt)) refl
      refl

next-below_o_example :
    (next leader (address (codes "o://leader/a/o/b")) ≡ address (codes "o://leader/ab"))
    × (starts_with
          (next leader (address (codes "o://leader/a/o/b"))).value
          (codes "o://leader/a/o/b")
        ≡ false)
unfolding run
next-below_o_example =
    next-below_o [] (codes "a") (codes "b") [] leader (address (codes "o://leader/a/o/b")) (λ e. cc)
      (λ e. cc) (omega arith) (omega arith) refl refl
