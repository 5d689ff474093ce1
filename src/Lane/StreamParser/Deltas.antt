-- ===== src/Lane/StreamParser/Deltas.antt =====
-- However the document is cut into chunks, what is emitted adds up to the value.
use olane.Common.{
  ℕ, zero, suc, ◌-◌, ◌≤◌, ◌≡◌, refl, sym, ap, ◌∙◌, true, false, List, [], ◌∷◌, ◌++◌, append-nil,
  append_assoc, Option, none, some, Text, drop, drop-append, length, length-append, Option-cases,
  inl, inr, arith,
}
use mathlib.Core.Path.{subst}
use olane.Lane.StreamParser.{
  Parser, new, find_field, current_value, emit, emit_if_found, process_chunk, process_all,
}
use olane.Lane.StreamParser.Quote.{until_quote, current_value-until_quote, until_quote-append}

-- A parser that has emitted `out` so far.
pub data Emitted (p : Parser) (out : Text) : Type 0 where
  searching :
      p.is_in_result_value ≡ false
      → p.result_start_index ≡ none
      → p.result_value ≡ []
      → out ≡ []
      → Emitted p out
  found :
      (start : ℕ)
      → p.is_in_result_value ≡ true
      → p.result_start_index ≡ some start
      → start ≤ length p.buffer
      → p.result_value ≡ until_quote (drop start p.buffer)
      → p.last_emitted_length ≡ length p.result_value
      → out ≡ p.result_value
      → Emitted p out

-- What one call emits, as text.
abbrev pub emitted_text : Option Text → Text
emitted_text none = []
emitted_text (some s) = s

emitted_text-elim : (s : Text) → emitted_text (elim s [ [] ↦ none | c ∷ t ↦ some (c ∷ t) ]) ≡ s
emitted_text-elim [] = refl
emitted_text-elim (c ∷ t) = refl

drop-append_le : (n : ℕ) (s t : Text) → n ≤ length s → drop n (s ++ t) ≡ drop n s ++ t
drop-append_le zero s t h = refl
drop-append_le (suc n) [] t h = absurd (omega arith)
drop-append_le (suc n) (c ∷ s) t h = drop-append_le n s t (omega arith)

-- Emission from a start that is known, when the value so far is a beginning of the new one.
emit-Emitted :
    (start : ℕ) (p : Parser) (old more : Text)
    → p.is_in_result_value ≡ true
    → p.result_start_index ≡ some start
    → start ≤ length p.buffer
    → until_quote (drop start p.buffer) ≡ old ++ more
    → p.last_emitted_length ≡ length old
    → Emitted (emit start p).0 (old ++ emitted_text (emit start p).1)
unfolding emit
emit-Emitted start p old more active at_start bound grown last =
    let same : current_value (drop start p.buffer) ≡ old ++ more =
      current_value-until_quote (drop start p.buffer) ∙ grown in
    found start active at_start bound (current_value-until_quote (drop start p.buffer)) refl (
      ap (λ t. old ++ t)
        (emitted_text-elim (drop p.last_emitted_length (current_value (drop start p.buffer)))
          ∙ rw (last, same) (drop-append old more))
      ∙ sym same)

-- One chunk keeps the account: what it emits is what the value grew by.
process_chunk-Emitted :
    (delta : Text) (p : Parser) (out : Text)
    → Emitted p out
    → Emitted (process_chunk delta p).0 (out ++ emitted_text (process_chunk delta p).1)
unfolding process_chunk emit_if_found
process_chunk-Emitted delta p out (found start active at_start bound value last same) =
    let (more, grown) = until_quote-append (drop start p.buffer) delta in
    let q = record p { buffer = p.buffer ++ delta; result_start_index = some start } in
    rw (active, at_start, same ∙ value)
      (emit-Emitted start q (until_quote (drop start p.buffer)) more active refl
        (omega (arith, length-append {0} p.buffer delta))
        (ap until_quote (drop-append_le start p.buffer delta bound) ∙ grown)
        (last ∙ ap length value))
process_chunk-Emitted delta p out (searching idle unset value nothing) =
    elim (Option-cases (find_field p.attribute_name (p.buffer ++ delta))) [
      | inl absent ↦ rw (idle, absent) (searching idle unset value (rw nothing))
      | inr (rest, at) ↦
          let start : ℕ = length (p.buffer ++ delta) - length rest in
          let q = record p {
            buffer = p.buffer ++ delta;
            is_in_result_value = true;
            result_start_index = some start;
            last_emitted_length = 0;
          } in
          rw (idle, at, nothing)
            (emit-Emitted start q [] (until_quote (drop start q.buffer)) refl refl (omega arith)
              refl refl)
    ]

pub process_all-Emitted :
    (deltas : List Text) (p : Parser) (out : Text)
    → Emitted p out
    → Emitted (process_all deltas p).0 (out ++ (process_all deltas p).1)
unfolding process_all
process_all-Emitted [] p out h = rw append-nil h
process_all-Emitted (delta ∷ deltas) p out h =
    let (q, sent) = process_chunk delta p in
    let ih =
      process_all-Emitted deltas q (out ++ emitted_text sent)
        (process_chunk-Emitted delta p out h) in
    let form = append_assoc out (emitted_text sent) (process_all deltas q).1 in
    subst (λ t. Emitted (process_all deltas q).0 t)
      (form ∙ ap (λ t. out ++ t) (joined sent (process_all deltas q).1)) ih
  where
    joined :
        (o : Option Text) (rest : Text)
        → emitted_text o ++ rest ≡ elim o [ none ↦ rest | some s ↦ s ++ rest ]
    joined none rest = refl
    joined (some s) rest = refl

pub new-Emitted : (name : Text) → Emitted (new name) []
unfolding new
new-Emitted name = searching refl refl refl refl

Emitted→eq : {p : Parser} {out : Text} → Emitted p out → out ≡ p.result_value
Emitted→eq (searching idle unset value nothing) = nothing ∙ sym value
Emitted→eq (found start active at_start bound value last same) = same

-- All that a new parser emits over a stream, in order, is the value that it then reports: nothing is
-- lost, repeated or changed by where the chunks are cut.
pub process_all-result_value :
    (name : Text) (deltas : List Text)
    → (process_all deltas (new name)).1 ≡ (process_all deltas (new name)).0.result_value
process_all-result_value name deltas =
    Emitted→eq (process_all-Emitted deltas (new name) [] (new-Emitted name))

-- The whole document that arrived is kept.
pub process_chunk-buffer :
    (delta : Text) (p : Parser) → (process_chunk delta p).0.buffer ≡ p.buffer ++ delta
unfolding process_chunk emit_if_found emit
process_chunk-buffer delta p = ground arith

abbrev pub concat : List Text → Text
concat [] = []
concat (s ∷ ss) = s ++ concat ss

pub process_all-buffer :
    (deltas : List Text) (p : Parser) → (process_all deltas p).0.buffer ≡ p.buffer ++ concat deltas
unfolding process_all
process_all-buffer [] p = sym (append-nil p.buffer)
process_all-buffer (delta ∷ deltas) p =
    process_all-buffer deltas (process_chunk delta p).0
    ∙ ap (λ b. b ++ concat deltas) (process_chunk-buffer delta p)
    ∙ append_assoc p.buffer delta (concat deltas)

pub Emitted→value :
    {p : Parser} {out : Text}
    → Emitted p out
    → (start : ℕ) → p.result_start_index ≡ some start
    → p.result_value ≡ until_quote (drop start p.buffer)
Emitted→value (searching idle unset value nothing) start e = absurd (cc)
Emitted→value (found begin active at_start bound value last same) start e =
    let same_start : begin ≡ start = cc in rw (← same_start) value
