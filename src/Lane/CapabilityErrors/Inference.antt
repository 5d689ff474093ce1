-- ===== src/Lane/CapabilityErrors/Inference.antt =====
-- What is kept of an error as it is wrapped and printed.
use olane.Common.{
  ◌≡◌, sym, ap, ◌∙◌, ◌⊎◌, ◌↔◌, inl, inr, Bool, true, ◌||◌, ◌++◌, append_assoc, some, Text, codes,
  includes, includes-found, includes-append, starts_with, strip_prefix, [], ◌∷◌, arith,
}
use olane.Lane.CapabilityErrors.{
  not_found, Context, CapabilityError, other, get_error_type_label, cycle_line, line_of, suggestion,
  get_remediation, to_human_readable, infer_type, from, message_or,
}

includes_within : (p a s b : Text) → includes p s ≡ true → includes p (a ++ (s ++ b)) ≡ true
includes_within p a s b h =
    let (x, y, e) = includes-found p s h in
    let split_at : a ++ (s ++ b) ≡ (a ++ x) ++ (p ++ (y ++ b)) =
      (ap (◌++◌ a)
          (ap (λ z. z ++ b) e ∙ append_assoc x (p ++ y) b ∙ ap (◌++◌ x) (append_assoc p y b))
        ∙ sym (append_assoc a x (p ++ (y ++ b)))) in
    rw split_at (includes-append p (a ++ x) (y ++ b))

-- What follows the message in the printed error.
details : CapabilityError → Text
details e =
    cycle_line e.context.cycle
    ++ (line_of (codes "Capability: ") e.context.capability_type
        ++ (line_of (codes "Tool: ") e.context.tool_address
            ++ (line_of (codes "Method: ") e.context.method
                ++ suggestion (get_remediation e.type))))

to_human_readable_lem :
    (e : CapabilityError)
    → to_human_readable e ≡ (get_error_type_label e.type ++ codes ": ") ++ (e.message ++ details e)
unfolding to_human_readable details
to_human_readable_lem e =
    sym (append_assoc (get_error_type_label e.type) (codes ": ") (e.message ++ details e))

infer_type_found :
    (m : Text)
    → (infer_type m ≡ not_found)
      ↔ ((includes (codes "not found") m || includes (codes "404") m) ≡ true)
unfolding infer_type
infer_type_found m = ground arith

message_or_found :
    (m s : Text) → infer_type m ≡ not_found → infer_type (message_or (some m) s) ≡ not_found
unfolding infer_type includes starts_with strip_prefix
message_or_found [] s h = absurd (cc)
message_or_found (c ∷ m) s h = h

or_cases : (a b : Bool) → (a || b) ≡ true → (a ≡ true) ⊎ (b ≡ true)
or_cases a b h = ground arith

or_intro : (a b : Bool) → (a ≡ true) ⊎ (b ≡ true) → (a || b) ≡ true
or_intro a b (inl e) = ground arith
or_intro a b (inr e) = ground arith

infer_type_printed :
    (e : CapabilityError)
    → infer_type e.message ≡ not_found
    → infer_type (to_human_readable e) ≡ not_found
infer_type_printed e h =
    let within : (p : Text)
        → includes p e.message ≡ true
        → includes p (to_human_readable e) ≡ true =
      λ p i.
        rw (to_human_readable_lem e)
          (includes_within p (get_error_type_label e.type ++ codes ": ") e.message (details e) i) in
    (infer_type_found (to_human_readable e)).1 (
      or_intro (includes (codes "not found") (to_human_readable e))
        (includes (codes "404") (to_human_readable e))
        (elim (or_cases (includes (codes "not found") e.message) (includes (codes "404") e.message)
          ((infer_type_found e.message).0 h)) [
            | inl i ↦ inl (within (codes "not found") i)
            | inr i ↦ inr (within (codes "404") i)
          ]))

-- An error that was taken for a missing resource is taken for one again when it is printed and what is
-- printed is thrown, whatever its type and its context, so also where it comes through several layers.
pub from_printed :
    (e : CapabilityError) (s : Text) (context : Context)
    → infer_type e.message ≡ not_found
    → (from (other (some (to_human_readable e)) s) context).type ≡ not_found
unfolding from
from_printed e s context h = message_or_found (to_human_readable e) s (infer_type_printed e h)
