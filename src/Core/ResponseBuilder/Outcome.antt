-- ===== src/Core/ResponseBuilder/Outcome.antt =====
-- The responses of a call and of a stream.
use olane.Common.{
  ◌≡◌, refl, ap, Bool, true, false, List, [], ◌∷◌, Option, some, map, Result, ok, err,
}
use olane.Core.ResponseBuilder.{
  OError, Thrown, normalize_error, Request, PartialContext, Metrics, make_context, count, value,
  Response, make_response, apply_all, build, build_chunk, build_final_chunk, build_error, execute,
}

abbrev pub is_ok : {A : Type 0} → Result Thrown A → Bool
is_ok (ok a) = true
is_ok (err e) = false

module _ {V : Type 0} where
  abbrev pub all_ok : List (Result Thrown (Response V) × Option Metrics) → List (Response V)
  all_ok [] = []
  all_ok ((ok r, m) ∷ rs) = r ∷ all_ok rs
  all_ok ((err e, m) ∷ rs) = all_ok rs

  module _ (error_of : V → Option OError) (request : Request) where
    -- A stream: the chunks, and the final one.
    abbrev pub stream :
        List V
        → PartialContext
        → Option Metrics
        → List (Result Thrown (Response V) × Option Metrics)
    stream [] partial metrics = build_final_chunk error_of [] request partial metrics ∷ []
    stream (v ∷ vs) partial metrics =
        let r = build_chunk error_of [] request (value v) partial metrics in
        r ∷ stream vs partial r.1

    -- The flags that a reader of the stream sees.
    abbrev pub expected : List V → List (Bool × (Bool × Bool))
    expected [] = (true, (true, true)) ∷ []
    expected (v ∷ vs) = (true, (true, false)) ∷ expected vs

    -- Without middlewares a stream has a response for each chunk and one more; all are streaming and
    -- successful, also where the context says otherwise, and only that one more is the last.
    pub stream_lem :
        (vs : List V) (partial : PartialContext) (metrics : Option Metrics)
        → map (λ r. (r.is_streaming, (r.success, r.last))) (all_ok (stream vs partial metrics))
          ≡ expected vs
    unfolding build_chunk build_final_chunk build apply_all make_response make_context
    stream_lem [] partial metrics = refl
    stream_lem (v ∷ vs) partial metrics =
        ap (◌∷◌ (true, (true, false))) (stream_lem vs partial (count true metrics))

    -- Without middlewares a call always gets a response, with the request's id, and it is successful
    -- exactly if the executor returned; if it threw, the response has the error, as an `oError`.
    pub outcome_lem :
        (outcome : Result Thrown V) (partial : PartialContext) (metrics : Option Metrics)
        → (r : Response V) × ((execute error_of [] request outcome partial metrics).0 ≡ ok r)
          × (r.id ≡ request.id)
          × (r.success ≡ is_ok outcome)
          × ((e : Thrown) → outcome ≡ err e → r.error ≡ some (normalize_error e))
    unfolding execute build_error build apply_all make_response make_context
    outcome_lem (err e) partial metrics =
        (_, refl, refl, refl, λ d h. ap (λ x. some (normalize_error x)) (same_thrown e d h))
      where
        same_thrown : (x y : Thrown) → Path (Result Thrown V) (err x) (err y) → x ≡ y
        same_thrown x y h = cc
    outcome_lem (ok v) partial metrics = (_, refl, refl, refl, λ d h. absurd (cc))
