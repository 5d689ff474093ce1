-- ===== src/Lane/StreamParser.antt =====
-- packages/o-lane/src/capabilities/utils/result-stream-parser.ts: the value of one text field of a
-- JSON document that arrives in chunks. The field is found by the regular expression
-- `"name"\s*:\s*"`, whose `\s*` and `:` cannot match one character, so it needs no backtracking.
-- The start index -1 is `none`.
pub mod Quote
pub mod Field
pub mod Deltas
pub mod Start
mod Tests
use olane.Common.{
  ℕ, zero, suc, ◌+◌, ◌-◌, Bool, true, false, ◌&&◌, ◌||◌, List, [], ◌∷◌, ◌++◌, Option, none, some,
  Text, codes, strip_prefix, take, drop, length, if◌then◌else◌, ◌==◌, leb, is_some,
}

abbrev pub backslash : ℕ
backslash = 92

abbrev pub quote : ℕ
quote = 34

pub record Parser : Type 0 where
  pub buffer : Text
  pub is_in_result_value : Bool
  pub result_start_index : Option ℕ
  pub last_emitted_length : ℕ
  pub result_value : Text
  pub attribute_name : Text

unfoldable pub new : Text → Parser
new name = record {
  buffer = [];
  is_in_result_value = false;
  result_start_index = none;
  last_emitted_length = 0;
  result_value = [];
  attribute_name = name;
}

-- The characters of `\s`.
unfoldable pub is_space : ℕ → Bool
is_space c =
    (leb 9 c && leb c 13)
    || c == 32
    || c == 0xa0
    || c == 0x1680
    || (leb 0x2000 c && leb c 0x200a)
    || c == 0x2028
    || c == 0x2029
    || c == 0x202f
    || c == 0x205f
    || c == 0x3000
    || c == 0xfeff

unfoldable pub skip_spaces : Text → Text
skip_spaces [] = []
skip_spaces (c ∷ s) = let rest = skip_spaces s in if is_space c then rest else c ∷ s

-- The text behind one given character.
unfoldable pub expect : ℕ → Text → Option Text
expect c [] = none
expect c (d ∷ s) = if d == c then some s else none

infixl 5 ◌>>=◌
abbrev ◌>>=◌ : Option Text → (Text → Option Text) → Option Text
none >>= f = none
some s >>= f = f s

-- The text behind `"name"\s*:\s*"`, where it begins at the first character.
unfoldable pub match_field : Text → Text → Option Text
match_field name s = do
  named ← strip_prefix (quote ∷ (name ++ codes "\"")) s
  valued ← expect b':' (skip_spaces named)
  expect quote (skip_spaces valued)

-- The text behind the leftmost match.
unfoldable pub find_field : Text → Text → Option Text
find_field name [] = none
find_field name (c ∷ s) =
    let later = find_field name s in
    elim (match_field name (c ∷ s)) [ none ↦ later | some rest ↦ some rest ]

-- The loop that looks for the closing quote, from index `i` on; an escape is passed over whole.
unfoldable pub end_index : ℕ → Text → Option ℕ
end_index i [] = none
end_index i (c ∷ []) = if c == backslash then none else if c == quote then some i else none
end_index i (c ∷ d ∷ s) =
    let escaped = end_index (i + 2) s in
    let plain = end_index (i + 1) (d ∷ s) in
    if c == backslash then escaped else if c == quote then some i else plain

unfoldable pub current_value : Text → Text
current_value content = elim (end_index 0 content) [ none ↦ content | some e ↦ take e content ]

-- The second half of `processChunk`, once the field's start is known.
unfoldable pub emit : ℕ → Parser → Parser × Option Text
emit start p =
    let value = current_value (drop start p.buffer) in
    let new_content = drop p.last_emitted_length value in
    (
      record p { last_emitted_length = length value; result_value = value },
      elim new_content [ [] ↦ none | c ∷ s ↦ some (c ∷ s) ],
    )

unfoldable pub emit_if_found : Parser → Parser × Option Text
emit_if_found p = elim p.result_start_index [ none ↦ (p, none) | some start ↦ emit start p ]

unfoldable pub process_chunk : Text → Parser → Parser × Option Text
process_chunk delta p =
    let q = record p { buffer = p.buffer ++ delta } in
    if q.is_in_result_value then emit_if_found q else elim (find_field q.attribute_name q.buffer) [
      | none ↦ (q, none)
      | some rest ↦
          let start = length q.buffer - length rest in
          emit_if_found (record q {
            is_in_result_value = true;
            result_start_index = some start;
            last_emitted_length = 0;
          })
    ]

unfoldable pub reset : Parser → Parser
reset p = new p.attribute_name

-- A whole stream: the parser after it, and all that was emitted, in order.
unfoldable pub process_all : List Text → Parser → Parser × Text
process_all [] p = (p, [])
process_all (delta ∷ deltas) p =
    let (q, out) = process_chunk delta p in
    let (r, rest) = process_all deltas q in (r, elim out [ none ↦ rest | some s ↦ s ++ rest ])
