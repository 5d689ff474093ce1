-- ===== src/Core/ResponseBuilder/Counting.antt =====
-- What the metrics count.
use olane.Common.{
  ℕ, ◌+◌, ◌≡◌, refl, Bool, true, false, not, List, Option, none, some, is_some, Result, ok, err,
  arith,
}
use olane.Core.ResponseBuilder.{
  OError, Thrown, o_error, normalize_error, Request, PartialContext, Metrics, make_context, Data,
  value, failure, Response, Middleware, make_response, apply_all, tracked, build, build_error,
  rescue, execute,
}

abbrev pub total : Option Metrics → ℕ
total none = 0
total (some m) = m.success_count + m.error_count

module _ {V : Type 0} where
  -- A response that is returned, with metrics to count it.
  abbrev pub returned : Option Metrics → Result Thrown (Response V) → ℕ
  returned none r = 0
  returned (some m) (err e) = 0
  returned (some m) (ok r) = 1

  returned_same :
      (m n : Metrics) (r : Result Thrown (Response V)) → returned (some n) r ≡ returned (some m) r
  returned_same m n (err e) = refl
  returned_same m n (ok r) = refl

  tracked_some :
      (success : Bool) (metrics : Option Metrics) (r : Result Thrown (Response V))
      → is_some (tracked success metrics r).1 ≡ is_some metrics
  tracked_some success metrics (err e) = refl
  tracked_some success none (ok r) = refl
  tracked_some true (some m) (ok r) = refl
  tracked_some false (some m) (ok r) = refl

  tracked-total :
      (success : Bool) (metrics : Option Metrics) (r : Result Thrown (Response V))
      → let (q, after) = tracked success metrics r in
        total after ≡ total metrics + returned metrics q
  tracked-total success none (err e) = omega arith
  tracked-total success none (ok r) = omega arith
  tracked-total success (some m) (err e) = omega arith
  tracked-total true (some m) (ok r) = omega arith
  tracked-total false (some m) (ok r) = omega arith

  module _ (error_of : V → Option OError) (middlewares : List (Middleware V))
      (request : Request) where
    pub build-total :
        (d : Data V) (error : Option Thrown) (partial : PartialContext) (metrics : Option Metrics)
        → let (q, after) = build error_of middlewares request d error partial metrics in
          total after ≡ total metrics + returned metrics q
    unfolding build
    build-total d error partial metrics =
        let success = not (is_some error) in
        let c = make_context request success partial in
        tracked-total success metrics
          (apply_all middlewares c (make_response error_of request d success c))

    rescue-total :
        (partial : PartialContext) (before : Option Metrics)
        (r : Result Thrown (Response V) × Option Metrics)
        → total r.1 ≡ total before + returned before r.0
        → is_some r.1 ≡ is_some before
        → let (q, after) = rescue error_of middlewares request partial r in
          total after ≡ total before + returned before q
    unfolding build_error
    rescue-total partial before (ok r, metrics) h k = h
    rescue-total partial none (err e, none) h k =
        let normalized = normalize_error e in
        build-total (failure normalized) (some (o_error normalized)) partial none
    rescue-total partial (some m) (err e, none) h k = absurd (cc)
    rescue-total partial none (err e, some m) h k = absurd (cc)
    rescue-total partial (some m) (err e, some n) h k =
        let normalized = normalize_error e in
        let t = build-total (failure normalized) (some (o_error normalized)) partial (some n) in
        let same =
          returned_same m n (build_error error_of middlewares request e partial (some n)).0 in
        omega arith

    -- Whatever the executor does and the middlewares throw, the metrics count one response if one is
    -- returned, and none if the call throws.
    pub execute_lem :
        (outcome : Result Thrown V) (partial : PartialContext) (metrics : Option Metrics)
        → let (q, after) = execute error_of middlewares request outcome partial metrics in
          total after ≡ total metrics + returned metrics q
    unfolding execute build build_error
    execute_lem (err e) partial metrics =
        build-total (failure (normalize_error e)) (some (o_error (normalize_error e))) partial
          metrics
    execute_lem (ok v) partial metrics =
        let c = make_context request true partial in
        let r = apply_all middlewares c (make_response error_of request (value v) true c) in
        rescue-total partial metrics (tracked true metrics r)
          (build-total (value v) none partial metrics) (tracked_some true metrics r)
