-- ===== src/Lane/StreamParser/Tests.antt =====
-- Witnesses and small runs of the stream parser.
use olane.Common.{ℕ, ◌≡◌, refl, inl, inr, some, All, List, [], ◌∷◌, Text, codes, strip_prefix}
use olane.Lane.StreamParser.{
  new, is_space, skip_spaces, expect, match_field, find_field, end_index, current_value, emit,
  emit_if_found, process_chunk, process_all,
}
use olane.Lane.StreamParser.Quote.{until_quote}
use olane.Lane.StreamParser.Deltas.{concat, process_all-result_value}
use olane.Lane.StreamParser.Field.{IsSpace, IsFieldAt}
use olane.Lane.StreamParser.Start.{process_all-until_quote}

run : Unit {0}
unfolding strip_prefix new is_space skip_spaces expect match_field find_field end_index
    current_value emit emit_if_found process_chunk process_all until_quote
run = tt

abbrev result : Text
result = codes "result"

abbrev chunks : List Text
chunks =
    codes "{\"step\":1,\"res"
    ∷ codes "ult\" : \"say \\"
    ∷ codes "\"hi\\\" now"
    ∷ codes "\",\"x\":\"y\"}"
    ∷ []

emitted : (process_all chunks (new result)).1 ≡ codes "say \\\"hi\\\" now"
unfolding run
emitted = refl

process_all-result_value_example :
    (process_all chunks (new result)).1 ≡ (process_all chunks (new result)).0.result_value
process_all-result_value_example = process_all-result_value result chunks

spaces : All IsSpace (codes " ")
spaces = (inr (inl refl), tt)

process_all-until_quote_example :
    let p = (process_all chunks (new result)).0 in
    (start : ℕ) × (f : IsFieldAt result (concat chunks) start) × (p.result_start_index ≡ some start)
    × (p.result_value ≡ until_quote f.rest)
process_all-until_quote_example =
    process_all-until_quote result (codes "{\"step\":1,") (codes " ") (codes " ")
      (codes "say \\\"hi\\\" now\",\"x\":\"y\"}") chunks spaces spaces refl
