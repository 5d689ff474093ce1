-- ===== src/Lane/StreamParser/Start.antt =====
-- Where the value that the parser reports stands in the document.
use olane.Common.{
  ℕ, ◌-◌, ◌≡◌, refl, sym, ap, ◌∙◌, true, false, List, [], ◌∷◌, ◌++◌, append_assoc, none, some, Text,
  drop, drop-append, length, length-append, All, Option-cases, inl, inr, arith,
}
use olane.Lane.StreamParser.{
  Parser, new, find_field, emit, emit_if_found, process_chunk, process_all,
}
use olane.Lane.StreamParser.Quote.{until_quote}
use olane.Lane.StreamParser.Field.{
  IsSpace, field_then, IsFieldAt, find_field-then, find_field-some, match_field_then, field_split,
}
use olane.Lane.StreamParser.Deltas.{
  concat, process_all-buffer, Emitted→value, process_all-Emitted, new-Emitted,
}

-- What a parser for the field `name` knows of its start.
data Located (name : Text) (p : Parser) : Type 0 where
  searching :
      p.is_in_result_value ≡ false
      → p.attribute_name ≡ name
      → find_field name p.buffer ≡ none
      → Located name p
  located :
      (start : ℕ)
      → p.is_in_result_value ≡ true
      → p.result_start_index ≡ some start
      → IsFieldAt name p.buffer start
      → Located name p

length_front : (front rest s : Text) → s ≡ front ++ rest → length s - length rest ≡ length front
length_front front rest s e = rw e (omega (arith, length-append {0} front rest))

-- The end of the opening of the field that was found.
found-IsFieldAt :
    (name s rest : Text) → find_field name s ≡ some rest → IsFieldAt name s (length s - length rest)
found-IsFieldAt name s rest h =
    let (before, gap, gap', k, k', e) = find_field-then name s rest h in
    record {
      before = before;
      gap = gap;
      gap' = gap';
      rest = rest;
      gap_spaces = k;
      gap'_spaces = k';
      document_eq = e;
      start_eq =
          length_front (before ++ field_then name gap gap' []) rest s
            (e ∙ field_split before name gap gap' rest);
    }

-- More of the document leaves the field where it is.
IsFieldAt-append :
    (name s t : Text) (start : ℕ) → IsFieldAt name s start → IsFieldAt name (s ++ t) start
IsFieldAt-append name s t start f =
    let front = f.before ++ field_then name f.gap f.gap' [] in
    record {
      before = f.before;
      gap = f.gap;
      gap' = f.gap';
      rest = f.rest ++ t;
      gap_spaces = f.gap_spaces;
      gap'_spaces = f.gap'_spaces;
      document_eq =
          ap (λ u. u ++ t) (f.document_eq ∙ field_split f.before name f.gap f.gap' f.rest)
          ∙ append_assoc front f.rest t
          ∙ sym (field_split f.before name f.gap f.gap' (f.rest ++ t));
      start_eq = f.start_eq;
    }

drop-IsFieldAt : (name s : Text) (start : ℕ) (f : IsFieldAt name s start) → drop start s ≡ f.rest
drop-IsFieldAt name s start f =
    let front = f.before ++ field_then name f.gap f.gap' [] in
    (λ i. drop (f.start_eq i) ((f.document_eq ∙ field_split f.before name f.gap f.gap' f.rest) i))
    ∙ drop-append front f.rest

process_chunk-Located :
    (name delta : Text) (p : Parser) → Located name p → Located name (process_chunk delta p).0
unfolding process_chunk emit_if_found emit
process_chunk-Located name delta p (located start active at_start f) =
    rw (active, at_start) (located start active refl (IsFieldAt-append name p.buffer delta start f))
process_chunk-Located name delta p (searching idle named absent) =
    elim (Option-cases (find_field name (p.buffer ++ delta))) [
      | inl e ↦ rw (idle, named, e) (searching idle named e)
      | inr (rest, e) ↦
          rw (idle, named, e)
            (located (length (p.buffer ++ delta) - length rest) refl refl
              (found-IsFieldAt name (p.buffer ++ delta) rest e))
    ]

process_all-Located :
    (name : Text) (deltas : List Text) (p : Parser)
    → Located name p
    → Located name (process_all deltas p).0
unfolding process_all
process_all-Located name [] p h = h
process_all-Located name (delta ∷ deltas) p h =
    process_all-Located name deltas (process_chunk delta p).0 (process_chunk-Located name delta p h)

new-Located : (name : Text) → Located name (new name)
unfolding new find_field
new-Located name = searching refl refl refl

Located→field :
    {name : Text} {p : Parser}
    → Located name p
    → (find_field name p.buffer ≡ none → ⊥)
    → (start : ℕ) × (p.result_start_index ≡ some start) × IsFieldAt name p.buffer start
Located→field (searching idle named absent) h = absurd (h absent)
Located→field (located start active at_start f) h = (start, at_start, f)

new-buffer : (name : Text) → (new name).buffer ≡ []
unfolding new
new-buffer name = refl

-- However a document that has the field is cut into chunks, the value that is reported in the end is
-- the text behind such a field, its name in quotes, a colon and a quote with any white space around
-- the colon: all up to the closing quote, escapes passed over, or to the end of the document.
pub process_all-until_quote :
    (name before gap gap' rest : Text) (deltas : List Text)
    → All IsSpace gap
    → All IsSpace gap'
    → concat deltas ≡ before ++ field_then name gap gap' rest
    → let p = (process_all deltas (new name)).0 in
      (start : ℕ) × (f : IsFieldAt name (concat deltas) start) × (p.result_start_index ≡ some start)
      × (p.result_value ≡ until_quote f.rest)
process_all-until_quote name before gap gap' rest deltas h k e =
    let p = (process_all deltas (new name)).0 in
    let whole : p.buffer ≡ concat deltas =
      process_all-buffer deltas (new name) ∙ ap (λ b. b ++ concat deltas) (new-buffer name) in
    let there : find_field name p.buffer ≡ none → ⊥ = λ none_there.
      find_field-some name before (field_then name gap gap' rest) rest
        (match_field_then name gap gap' rest h k)
        (ap (find_field name) (sym (whole ∙ e)) ∙ none_there) in
    let (start, at_start, f) =
      Located→field (process_all-Located name deltas (new name) (new-Located name)) there in
    (
      start,
      record {
        before = f.before;
        gap = f.gap;
        gap' = f.gap';
        rest = f.rest;
        gap_spaces = f.gap_spaces;
        gap'_spaces = f.gap'_spaces;
        document_eq = sym whole ∙ f.document_eq;
        start_eq = f.start_eq;
      },
      at_start,
      Emitted→value (process_all-Emitted deltas (new name) [] (new-Emitted name)) start at_start
          ∙ ap until_quote (drop-IsFieldAt name p.buffer start f),
    )
