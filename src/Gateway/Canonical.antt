-- ===== src/Gateway/Canonical.antt =====
-- packages/o-gateway-registry/src/canonical/canonicalize.ts and signing-payload.ts. `JSON.stringify` of
-- a string is a parameter; the UTF-8 bytes of a payload are left as its text.
pub mod Order
pub mod Forgetting
mod Tests
use olane.Common.{
  ℕ, Bool, true, false, not, ◌||◌, List, [], ◌∷◌, ◌++◌, Text, codes, text_eq, if◌then◌else◌, ltb,
  any, ◌==◌, Result, ok, err, ◌>>=◌,
}
use olane.Common.Json.{
  Json, undefined, null, boolean, number, string, non_finite, other, array, object, Items, end,
  item, Fields, closed, field,
}

pub data Problem : Type 0 where
  non_finite_number : Problem
  unsupported_type : Text → Problem

-- What a key becomes: its own text, and its value's or the error that the value throws.
abbrev pub Entry : Type 0
Entry = Text × Result Problem Text

-- The order of UTF-16 units that `sort()` uses.
unfoldable pub text_le : Text → Text → Bool
text_le [] t = true
text_le (c ∷ s) [] = false
text_le (c ∷ s) (d ∷ t) = let rest = text_le s t in if c == d then rest else ltb c d

unfoldable pub insert : Entry → List Entry → List Entry
insert e [] = e ∷ []
insert (k, v) ((j, w) ∷ es) =
    let rest = insert (k, v) es in if text_le k j then (k, v) ∷ (j, w) ∷ es else (j, w) ∷ rest

unfoldable pub sort : List Entry → List Entry
sort [] = []
sort (e ∷ es) = insert e (sort es)

-- The first error ends the `map`.
unfoldable pub join : List (Result Problem Text) → Result Problem Text
join [] = ok []
join (r ∷ []) = r
join (r ∷ q ∷ rs) = r >>= λ s. join (q ∷ rs) >>= λ t. ok (s ++ b',' ∷ t)

abbrev pub is_undefined : Json → Bool
is_undefined undefined = true
is_undefined j = false

module _ (stringify : Text → Text) where
  unfoldable pub member : Entry → Result Problem Text
  member (k, v) = v >>= λ s. ok (stringify k ++ b':' ∷ s)

  unfoldable pub members : List Entry → List (Result Problem Text)
  members [] = []
  members (e ∷ es) = member e ∷ members es

  abbrev pub enclose : ℕ → ℕ → Result Problem Text → Result Problem Text
  enclose open_unit close_unit r = r >>= λ s. ok (open_unit ∷ s ++ close_unit ∷ [])

  unfoldable mutual
    pub canonicalize : Json → Result Problem Text
    canonicalize undefined = err (unsupported_type (codes "undefined"))
    canonicalize null = ok (codes "null")
    canonicalize (boolean true) = ok (codes "true")
    canonicalize (boolean false) = ok (codes "false")
    canonicalize (number t) = ok t
    canonicalize (string t) = ok (stringify t)
    canonicalize non_finite = err non_finite_number
    canonicalize (other t) = err (unsupported_type t)
    canonicalize (array items) = enclose b'[' b']' (join (canonicalize_items items))
    canonicalize (object fields) =
        enclose b'{' b'}' (join (members (sort (canonicalize_fields fields))))

    pub canonicalize_items : Items → List (Result Problem Text)
    canonicalize_items end = []
    canonicalize_items (item j items) = canonicalize j ∷ canonicalize_items items

    pub canonicalize_fields : Fields → List Entry
    canonicalize_fields closed = []
    canonicalize_fields (field k j fields) =
        let rest = canonicalize_fields fields in
        if is_undefined j then rest else (k, canonicalize j) ∷ rest

-- An object without some of its keys: `const { a, b, ...signed } = value`.
unfoldable pub omit : List Text → Fields → Fields
omit ks closed = closed
omit ks (field k j fields) =
    let rest = omit ks fields in if any (text_eq k) ks then rest else field k j rest

unfoldable pub entry_signing_payload : (Text → Text) → Fields → Result Problem Text
entry_signing_payload stringify entry =
    canonicalize stringify (object (omit (codes "signature" ∷ codes "verifiedAt" ∷ []) entry))

unfoldable pub snapshot_signing_payload : (Text → Text) → Fields → Result Problem Text
snapshot_signing_payload stringify snapshot =
    canonicalize stringify (object (omit (codes "maintainerSignature" ∷ []) snapshot))
