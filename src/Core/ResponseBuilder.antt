-- ===== src/Core/ResponseBuilder.antt =====
-- packages/o-core/src/response/response-builder.ts. `V` is the type of results, with the `error` field
-- that a result has; a middleware is a parameter that returns a response or throws. A falsy error is
-- `none`; a field of the context that is given has a value.
pub mod Counting
pub mod Outcome
mod Tests
use olane.Common.{
  ℕ, ◌+◌, Bool, true, false, not, List, [], ◌∷◌, ◌++◌, Option, none, some, Text, codes, or_default,
  is_some, Result, ok, err, ◌>>=◌,
}

pub record OError : Type 0 where
  pub code : ℕ
  pub message : Text
  pub details : Option Text

-- Anything that is thrown: its message and its stack, if it has them, and its text.
pub data Thrown : Type 0 where
  o_error : OError → Thrown
  foreign : Option Text → Option Text → Text → Thrown

-- `oErrorCodes.UNKNOWN`.
abbrev unknown_code : ℕ
unknown_code = 4001

-- `error?.message || String(error)`.
abbrev message_of : Option Text → Text → Text
message_of none text = text
message_of (some []) text = text
message_of (some (c ∷ s)) text = c ∷ s

unfoldable pub normalize_error : Thrown → OError
normalize_error (o_error e) = e
normalize_error (foreign message stack text) = record {
  code = unknown_code;
  message = message_of message text;
  details = stack;
}

pub record Request : Type 0 where
  pub id : Text
  pub method : Text
  pub connection_id : Text

pub record PartialContext : Type 0 where
  pub is_stream : Option Bool
  pub is_last : Option Bool
  pub success : Option Bool
  pub request_method : Option Text
  pub connection_id : Option Text

pub record Context : Type 0 where
  pub is_stream : Bool
  pub is_last : Bool
  pub success : Bool
  pub request_id : Text
  pub request_method : Text
  pub connection_id : Text

pub record Metrics : Type 0 where
  pub success_count : ℕ
  pub error_count : ℕ

-- `x || y` of two texts.
abbrev text_or : Text → Text → Text
text_or [] t = t
text_or (c ∷ s) t = c ∷ s

unfoldable pub make_context : Request → Bool → PartialContext → Context
make_context request success c = record {
  is_stream = or_default c.is_stream false;
  is_last = or_default c.is_last true;
  success = or_default c.success success;
  request_id = request.id;
  request_method = or_default c.request_method request.method;
  connection_id = or_default c.connection_id request.connection_id;
}

abbrev pub count : Bool → Option Metrics → Option Metrics
count success none = none
count true (some m) = some (record m { success_count = m.success_count + 1 })
count false (some m) = some (record m { error_count = m.error_count + 1 })

module _ (V : Type 0) where
  pub data Data : Type 0 where
    value : V → Data
    failure : OError → Data
    completed : Data

  pub record Response : Type 0 where
    pub id : Text
    pub data_ : Data
    pub error : Option OError
    pub success : Bool
    pub last : Bool
    pub is_streaming : Bool
    pub request_method : Text
    pub connection_id : Text

  abbrev pub Middleware : Type 0
  Middleware = Response → Context → Result Thrown Response

module _ {V : Type 0} where
  abbrev error_field : (V → Option OError) → Data V → Option OError
  error_field error_of (value v) = error_of v
  error_field error_of (failure e) = some e
  error_field error_of completed = none

  unfoldable pub make_response :
      (V → Option OError) → Request → Data V → Bool → Context → Response V
  make_response error_of request d success c = record {
    id = request.id;
    data_ = d;
    error = error_field error_of d;
    success = success;
    last = c.is_last;
    is_streaming = c.is_stream;
    request_method = text_or c.request_method request.method;
    connection_id = c.connection_id;
  }

  unfoldable pub apply_all : List (Middleware V) → Context → Response V → Result Thrown (Response V)
  apply_all [] c r = ok r
  apply_all (m ∷ ms) c r = m r c >>= apply_all ms c

  abbrev pub tracked :
      Bool
      → Option Metrics
      → Result Thrown (Response V)
      → Result Thrown (Response V) × Option Metrics
  tracked success metrics (err e) = (err e, metrics)
  tracked success metrics (ok r) = (ok r, count success metrics)

  module _ (error_of : V → Option OError) (middlewares : List (Middleware V))
      (request : Request) where
    unfoldable pub build :
        Data V
        → Option Thrown
        → PartialContext
        → Option Metrics
        → Result Thrown (Response V) × Option Metrics
    build d error partial metrics =
        let success = not (is_some error) in
        let c = make_context request success partial in
        tracked success metrics
          (apply_all middlewares c (make_response error_of request d success c))

    unfoldable pub build_chunk :
        Data V → PartialContext → Option Metrics → Result Thrown (Response V) × Option Metrics
    build_chunk d partial metrics =
        build d none
          (record partial { is_stream = some true; is_last = some false; success = some true })
          metrics

    unfoldable pub build_final_chunk :
        PartialContext → Option Metrics → Result Thrown (Response V) × Option Metrics
    build_final_chunk partial metrics =
        build completed none
          (record partial { is_stream = some true; is_last = some true; success = some true })
          metrics

    unfoldable pub build_error :
        Thrown → PartialContext → Option Metrics → Result Thrown (Response V) × Option Metrics
    build_error e partial metrics =
        let normalized = normalize_error e in
        build (failure normalized) (some (o_error normalized)) partial metrics

    abbrev pub rescue :
        PartialContext
        → Result Thrown (Response V) × Option Metrics
        → Result Thrown (Response V) × Option Metrics
    rescue partial (ok r, metrics) = (ok r, metrics)
    rescue partial (err e, metrics) = build_error e partial metrics

    -- The executor is its outcome.
    unfoldable pub execute :
        Result Thrown V
        → PartialContext
        → Option Metrics
        → Result Thrown (Response V) × Option Metrics
    execute (ok v) partial metrics = rescue partial (build (value v) none partial metrics)
    execute (err e) partial metrics = build_error e partial metrics
